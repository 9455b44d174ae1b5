-- ===== src/Downloader/Requests/Honest.antt =====
-- What a whole attempt at a piece marks as done against what it has written.
use afd.Prelude.{
  ℕ, ◌+◌, ◌*◌, ◌<◌, ◌≡◌, ◌⊎◌, refl, sym, ◌∙◌, subst, inl, inr, true, List, [], ◌∷◌, ◌++◌, arith,
  ◌==◌, Bool-cases, pos,
}
use afd.Downloader.Bitfield.{is_bit_set, block_length_at}
use afd.Downloader.Piece.{Piece, is_complete}
use afd.Downloader.Piece.Blocks.{
  IsSound, set_use_bit_frame, next_unused_block_lem, next_unused_block-IsSound,
}
use afd.Downloader.Piece.Frame.{
  SameBlocks, SameBlocks-refl, SameBlocks-trans, block_length_at-same, next_unused_block-SameBlocks,
  is_bit_set-next_unused_block, cancel_block-SameBlocks, is_bit_set-cancel_block,
  cancel_block-IsSound, set_use_bit-SameBlocks,
}
use afd.Downloader.Worker.{SpeedLimit, Transfer, start_transfer, read_loop}
use afd.Downloader.Worker.Written.{
  is_written, BlockWritten, Honest, Going, read_loop-Honest, start-Going,
}
use afd.Downloader.Requests.{
  Reply, not_created, not_answered, answered, Round, Fetched, AfterBody, returns, next_request,
  after_body, Attempted, give_back, request_block, with_block, fetch_piece,
}

written_earlier :
    (x : ℕ) (later earlier : List (ℕ × ℕ))
    → is_written x earlier ≡ true
    → is_written x (later ++ earlier) ≡ true
unfolding is_written
written_earlier x [] earlier h = h
written_earlier x ((o, n) ∷ later) earlier h = ground (arith, written_earlier x later earlier h)

written_later :
    (x : ℕ) (later earlier : List (ℕ × ℕ))
    → is_written x later ≡ true
    → is_written x (later ++ earlier) ≡ true
unfolding is_written
written_later x [] earlier h = absurd (ground (arith, h))
written_later x ((o, n) ∷ later) earlier h = ground (arith, h, written_later x later earlier)

BlockWritten-same :
    {p q : Piece} (i : ℕ) (ws : List (ℕ × ℕ))
    → SameBlocks p q
    → BlockWritten q i ws
    → BlockWritten p i ws
BlockWritten-same i ws s b x l u =
    b x (rw (s.start, s.unit) l) (rw (block_length_at-same i s, s.start, s.unit) u)

module _ (p : Piece) where
  -- The marks of a piece against the writes so far.
  record Owed (q : Piece) (ws : List (ℕ × ℕ)) : Type 0 where
    sound : IsSound q
    same : SameBlocks p q
    done :
        (i : ℕ)
        → is_bit_set q.blocks i ≡ true
        → (is_bit_set p.blocks i ≡ true) ⊎ BlockWritten p i ws

  move-Owed :
      (q r : Piece) (ws : List (ℕ × ℕ))
      → IsSound r
      → SameBlocks q r
      → ((j : ℕ) → is_bit_set r.blocks j ≡ is_bit_set q.blocks j)
      → Owed q ws
      → Owed r ws
  move-Owed q r ws sound same marks o = record {
    sound = sound;
    same = SameBlocks-trans o.same same;
    done = λ i k. o.done i (sym (marks i) ∙ k);
  }

  give_back-Owed : (q : Piece) (off : ℕ) (ws : List (ℕ × ℕ)) → Owed q ws → Owed (give_back q off) ws
  give_back-Owed q off ws o =
      move-Owed q _ ws (cancel_block-IsSound q _ o.sound) (cancel_block-SameBlocks q _)
        (is_bit_set-cancel_block q _) o

  body-Owed :
      (q : Piece) (first : ℕ) (t : Transfer) (ws : List (ℕ × ℕ))
      → Owed q ws
      → Honest q first t
      → Owed t.piece (t.writes ++ ws)
  body-Owed q first t ws o h = record {
    sound = h.sound;
    same = SameBlocks-trans o.same h.same;
    done = λ i k. elim (h.done i k) [
      | inl before ↦ elim (o.done i before) [
        | inl old ↦ inl old
        | inr all ↦ inr (λ x l u. written_earlier x t.writes ws (all x l u))
      ]
      | inr all ↦
          inr (λ x l u. written_later x t.writes ws (BlockWritten-same i t.writes o.same all x l u))
    ];
  }

  OwedBy : Attempted → Type 0
  OwedBy a = Owed a.piece a.writes

  AfterBody-cases : (a : AfterBody) → ((f : Fetched) × (a ≡ returns f)) ⊎ (a ≡ next_request)
  AfterBody-cases (returns f) = inl (f, refl)
  AfterBody-cases next_request = inr refl

  request_block-Owed :
      (limit : SpeedLimit) (reply : Reply) (q : Piece) (i off len : ℕ) (ws : List (ℕ × ℕ))
      → (go_on : Piece → List (ℕ × ℕ) → Attempted)
      → ((r : Piece) (ws' : List (ℕ × ℕ)) → Owed r ws' → OwedBy (go_on r ws'))
      → i < q.blocks.num_blocks
      → off ≡ q.start + i * q.blocks.block_length
      → len ≡ block_length_at q.blocks i
      → Owed q ws
      → OwedBy (request_block limit reply q off len ws go_on)
  unfolding request_block OwedBy
  request_block-Owed limit not_created q i off len ws go_on ih l b e o = give_back-Owed q off ws o
  request_block-Owed limit not_answered q i off len ws go_on ih l b e o = give_back-Owed q off ws o
  request_block-Owed limit (answered status now reads) q i off len ws go_on ih l b e o =
      elim (Bool-cases (status == 416)) [
        | inl beyond ↦ rw beyond (give_back-Owed q off ws o)
        | inr _416 ↦ elim (Bool-cases (status == 200)) [
          | inl whole ↦ rw (_416, whole) (give_back-Owed q off ws o)
          | inr _200 ↦ elim (Bool-cases (status == 206)) [
            | inr odd ↦ rw (_416, _200, odd) (give_back-Owed q off ws o)
            | inl partial ↦
                let out = read_loop limit reads (start_transfer q off len now) in
                let going : Going q off (start_transfer q off len now) =
                  rw (b, e) (start-Going q i now o.sound l) in
                let body =
                  body-Owed q off out.1 ws o
                    (read_loop-Honest q off limit reads (start_transfer q off len now) going) in
                elim (AfterBody-cases (after_body out.0)) [
                  | inl (f, end) ↦ rw (_416, _200, partial, end) body
                  | inr next ↦
                      rw (_416, _200, partial, next) (ih out.1.piece (out.1.writes ++ ws) body)
                ]
          ]
        ]
      ]

  fetch_piece-Owed :
      (limit : SpeedLimit) (rs : List Round) (q : Piece) (ws : List (ℕ × ℕ))
      → Owed q ws
      → OwedBy (fetch_piece limit rs q ws)
  unfolding fetch_piece with_block OwedBy
  fetch_piece-Owed limit [] q ws o = o
  fetch_piece-Owed limit (r ∷ rs) q ws o = elim (Bool-cases r.done_before) [
    | inl done ↦ rw done o
    | inr live ↦ elim (Bool-cases (is_complete q)) [
      | inl all ↦ rw (live, all) o
      | inr some_left ↦
          let o' =
            move-Owed q _ ws (next_unused_block-IsSound q o.sound) (next_unused_block-SameBlocks q)
              (is_bit_set-next_unused_block q) o in
          elim (next_unused_block_lem q) [
            | inl (e, _) ↦ elim (Bool-cases r.done_waiting) [
              | inl stopped ↦ rw (live, some_left, e, some_left, stopped) o
              | inr fired ↦
                  rw (live, some_left, e, some_left, fired) (fetch_piece-Owed limit rs q ws o)
            ]
            | inr (i, e, inside, _, _, _) ↦
                let frame = set_use_bit_frame q.blocks (pos i) in
                rw (live, some_left, e)
                  (request_block-Owed limit r.reply _ i _ _ ws _
                    (λ q' ws' o'. fetch_piece-Owed limit rs q' ws' o') (rw (frame.0) inside)
                    (rw (frame.1) refl) (sym (block_length_at-same i (set_use_bit-SameBlocks q i)))
                    (subst (λ n. Owed n.0 ws) e o'))
          ]
    ]
  ]

-- Whatever comes of the requests of an attempt at a sound piece, a block that is marked as done at its end was
-- marked at its start, or every byte of it has been written to the file during the attempt.
pub fetch_piece-honest :
    (limit : SpeedLimit) (rs : List Round) (p : Piece) (j : ℕ)
    → IsSound p
    → is_bit_set (fetch_piece limit rs p []).piece.blocks j ≡ true
    → (is_bit_set p.blocks j ≡ true) ⊎ BlockWritten p j (fetch_piece limit rs p []).writes
unfolding OwedBy
fetch_piece-honest limit rs p j s marked =
    (fetch_piece-Owed p limit rs p []
        (record { sound = s; same = SameBlocks-refl p; done = λ i h. inl h })).done
      j marked
