-- ===== src/Api/Middleware/Window.antt =====
-- How many requests of one client the rate limiter of the API lets pass within a window.
use afd.Prelude.{
  ℕ, ◌+◌, ◌-◌, ◌<◌, ◌≡◌, refl, ◌∙◌, Bool, true, false, not, ◌&&◌, List, [], ◌∷◌, none, some, String,
  str_eq, arith, if◌then◌else◌, leb, GoMap, lookup, insert, lookup-insert, Bool-cases, Option-cases,
  inl, inr, eq_iff,
}
use afd.Api.Middleware.{RequestWindow, allow_ip, cleanup}

-- What happens to the limiter: a request of a client, or a tick of the cleanup, at a time.
pub data LimiterEvent : Type 0 where
  request : String → ℕ → LimiterEvent
  tick : ℕ → LimiterEvent

-- How many requests of the client `me` pass.
unfoldable pub passed : ℕ → ℕ → String → List LimiterEvent → GoMap RequestWindow → ℕ
passed limit window me [] m = 0
passed limit window me (request ip now ∷ es) m =
    let (ok, m') = allow_ip limit window ip now m in
    let rest : ℕ = passed limit window me es m' in if str_eq ip me && ok then 1 + rest else rest
passed limit window me (tick now ∷ es) m = passed limit window me es (cleanup window now m)

unfoldable pub requests_of : String → List LimiterEvent → ℕ
requests_of me [] = 0
requests_of me (request ip now ∷ es) =
    let rest : ℕ = requests_of me es in if str_eq ip me then 1 + rest else rest
requests_of me (tick now ∷ es) = requests_of me es

-- All events lie less than a window after the given time.
unfoldable pub within : ℕ → ℕ → List LimiterEvent → Bool
within window start [] = true
within window start (request ip now ∷ es) = not (leb window (now - start)) && within window start es
within window start (tick now ∷ es) = not (leb window (now - start)) && within window start es

lookup-cleanup :
    (window now : ℕ) (me : String) (seen : RequestWindow) (m : GoMap RequestWindow)
    → lookup me m ≡ some seen
    → leb window (now - seen.window_start) ≡ false
    → lookup me (cleanup window now m) ≡ some seen
unfolding lookup cleanup
lookup-cleanup window now me seen [] e k = e
lookup-cleanup window now me seen ((ip, other) ∷ m) e k =
    ground (arith, e, k, lookup-cleanup window now me seen m)

allow_ip-other :
    (limit window : ℕ) (ip me : String) (now : ℕ) (m : GoMap RequestWindow)
    → str_eq ip me ≡ false
    → lookup me (allow_ip limit window ip now m).1 ≡ lookup me m
unfolding allow_ip
allow_ip-other limit window ip me now m other = elim (Option-cases (lookup ip m)) [
  | inl new ↦ rw (allow_ip, new) (lookup-insert ip me _ m ∙ rw other refl)
  | inr (seen, known) ↦
      rw (allow_ip, known)
        (ground (
          arith,
          other,
          lookup-insert ip me (record { count = 1; window_start = now }) m,
          lookup-insert ip me (record seen { count = seen.count + 1 }) m,
        ))
]

allow_ip-known :
    (limit window : ℕ) (me : String) (now start count : ℕ) (m : GoMap RequestWindow)
    → lookup me m ≡ some (record { count = count; window_start = start })
    → leb window (now - start) ≡ false
    → allow_ip limit window me now m ≡ (
        if leb limit count
        then (false, m)
        else (true, insert me (record { count = count + 1; window_start = start }) m))
unfolding allow_ip
allow_ip-known limit window me now start count m e k = rw (allow_ip, e, k) refl

-- After the first request of a client in a window, which sets its count to `count`, those that follow before the
-- window is over pass until the count is at the limit, and no more, whatever other clients and the cleanup do.
passed-lem :
    (limit window : ℕ) (me : String) (es : List LimiterEvent) (m : GoMap RequestWindow)
    (start count : ℕ)
    → lookup me m ≡ some (record { count = count; window_start = start })
    → within window start es ≡ true
    → passed limit window me es m
      ≡ (if leb (requests_of me es) (limit - count) then requests_of me es else limit - count)
unfolding passed requests_of within
passed-lem limit window me [] m start count e h = ground arith
passed-lem limit window me (tick now ∷ es) m start count e h =
    passed-lem limit window me es (cleanup window now m) start count
      (lookup-cleanup window now me _ m e (ground (arith, h))) (ground (arith, h))
passed-lem limit window me (request ip now ∷ es) m start count e h =
    elim (Bool-cases (str_eq ip me)) [
      | inr other ↦ rw other (
          passed-lem limit window me es (allow_ip limit window ip now m).1 start count
            (allow_ip-other limit window ip me now m other ∙ e) (ground (arith, h)))
      | inl mine ↦
          let known = allow_ip-known limit window me now start count m e (ground (arith, h)) in
          elim (Bool-cases (leb limit count)) [
            | inl full ↦
                rw ((eq_iff ip me).0 mine, known, full)
                  (ground (
                    arith,
                    mine,
                    full,
                    passed-lem limit window me es m start count e (ground (arith, h)),
                  ))
            | inr free ↦
                let next =
                  passed-lem limit window me es
                    (insert me (record { count = count + 1; window_start = start }) m) start
                    (count + 1) (lookup-insert me me _ m ∙ rw ((eq_iff me me).1 refl) refl)
                    (ground (arith, h)) in
                rw ((eq_iff ip me).0 mine, known, free)
                  (ground (arith, (eq_iff me me).1 refl, free, next))
          ]
    ]

-- In a window that begins with a client's first request, its requests pass up to the limit, which is
-- positive, and no more, whatever other clients do and whenever the cleanup runs.
pub window_allows :
    (limit window : ℕ) (me : String) (now : ℕ) (es : List LimiterEvent) (m : GoMap RequestWindow)
    → 0 < limit
    → lookup me m ≡ none
    → within window now es ≡ true
    → passed limit window me (request me now ∷ es) m
      ≡ (if leb (1 + requests_of me es) limit then 1 + requests_of me es else limit)
unfolding passed allow_ip
window_allows limit window me now es m h new later =
    let next =
      passed-lem limit window me es (insert me (record { count = 1; window_start = now }) m) now 1
        (lookup-insert me me _ m ∙ rw ((eq_iff me me).1 refl) refl) later in
    rw (allow_ip, new, (eq_iff me me).1 refl) (ground (arith, h, next))
