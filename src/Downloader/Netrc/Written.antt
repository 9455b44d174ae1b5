-- ===== src/Downloader/Netrc/Written.antt =====
-- What the parser makes of a file that lists machines, a line for each.
use Prim.Native.Char.{Char, code}
use afd.Prelude.{
  ◌≡◌, refl, sym, subst, Bool-cases, inl, inr, eq_iff, ap, ◌∙◌, Bool, true, false, not, ◌&&◌, List,
  [], ◌∷◌, ◌++◌, Option, none, some, String, str_eq, arith, if◌then◌else◌, append_assoc,
}
use afd.Downloader.Netrc.{
  NetrcEntry, Netrc, keyword, begin_entry, change_current, with_value, parse_line, parse_lines,
  load_netrc, is_space, goes_on, extend_first, fields,
}

-- The word and a space, before the rest of a line.
unfoldable pub put_word : String → String → String
put_word String.[] rest = String.◌∷◌ " " rest
put_word (String.◌∷◌ c w) rest = String.◌∷◌ c (put_word w rest)

unfoldable pub put_words : List String → String
unfolding put_word
put_words [] = String.[]
put_words (w ∷ ws) = put_word w (put_words ws)

unfoldable pub no_space : String → Bool
no_space String.[] = true
no_space (String.◌∷◌ c s) = not (is_space (code c)) && no_space s

-- Not empty, and without white space.
unfoldable pub is_word : String → Bool
unfolding no_space
is_word String.[] = false
is_word (String.◌∷◌ c s) = no_space (String.◌∷◌ c s)

unfoldable pub all_words : List String → Bool
all_words [] = true
all_words (w ∷ ws) = is_word w && all_words ws

fields-go_on :
    (c : Char) (s : String)
    → is_space (code c) ≡ false
    → goes_on s ≡ true
    → fields (String.◌∷◌ c s) ≡ extend_first c (fields s)
unfolding fields
fields-go_on c s start on = rw (start, on) refl

fields-put_word :
    (c : Char) (w rest : String)
    → no_space (String.◌∷◌ c w) ≡ true
    → fields (put_word (String.◌∷◌ c w) rest) ≡ String.◌∷◌ c w ∷ fields rest
unfolding fields put_word no_space goes_on extend_first
fields-put_word c String.[] rest h =
    let start : is_space (code c) ≡ false = ground (arith, h) in unfold is_space in rw (start) refl
fields-put_word c (String.◌∷◌ d w) rest h =
    let start : is_space (code c) ≡ false = ground (arith, h) in
    let next : is_space (code d) ≡ false = ground (arith, h) in
    let on : goes_on (put_word (String.◌∷◌ d w) rest) ≡ true = rw next refl in
    fields-go_on c (put_word (String.◌∷◌ d w) rest) start on
    ∙ ap (extend_first c) (fields-put_word d w rest (ground (arith, h)))

fields-put_words : (ws : List String) → all_words ws ≡ true → fields (put_words ws) ≡ ws
unfolding put_words all_words is_word
fields-put_words [] h = unfold fields in refl
fields-put_words (String.[] ∷ ws) h = cc
fields-put_words (String.◌∷◌ c w ∷ ws) h =
    fields-put_word c w (put_words ws) (ground (arith, h))
    ∙ ap (λ r. String.◌∷◌ c w ∷ r) (fields-put_words ws (ground (arith, h)))

-- The words of an entry, and the line that they make.
unfoldable pub words_of : NetrcEntry → List String
words_of e =
    "machine" ∷ e.machine ∷ "login" ∷ e.login ∷ "password" ∷ e.password ∷ "account" ∷ e.account ∷ []

unfoldable pub line_of : NetrcEntry → String
unfolding put_words words_of
line_of e = put_words (words_of e)

unfoldable pub lines_of : List NetrcEntry → List String
unfolding line_of
lines_of [] = []
lines_of (e ∷ es) = line_of e ∷ lines_of es

-- Every field of the entries is a word.
unfoldable pub all_plain : List NetrcEntry → Bool
all_plain [] = true
all_plain (e ∷ es) =
    (is_word e.machine && is_word e.login && is_word e.password && is_word e.account)
    && all_plain es

keywords_are_words :
    (is_word "machine" ≡ true)
    × (is_word "login" ≡ true)
    × (is_word "password" ≡ true)
    × (is_word "account" ≡ true)
unfolding is_word is_space
keywords_are_words = (refl, refl, refl, refl)

fields-line_of :
    (e : NetrcEntry) (es : List NetrcEntry)
    → all_plain (e ∷ es) ≡ true
    → fields (line_of e) ≡ words_of e
unfolding line_of
fields-line_of e es h =
    fields-put_words (words_of e)
      (unfold all_words words_of all_plain in ground (arith, h, keywords_are_words))

word-named : (s : String) → is_word s ≡ true → str_eq s "" ≡ false
unfolding is_word
word-named s h = elim (Bool-cases (str_eq s "")) [
  | inl empty ↦ absurd (cc (ap is_word ((eq_iff s "").0 empty), h))
  | inr named ↦ named
]

-- `load_netrc` from the variables of the parser on.
finish : Netrc → Netrc
finish n = elim n.current [
  | none ↦ n
  | some c ↦ if str_eq c.machine "" then n else record n { entries = n.entries ++ c ∷ [] }
]

parse_lines-entry :
    (e : NetrcEntry) (es : List NetrcEntry) (n : Netrc)
    → all_plain (e ∷ es) ≡ true
    → parse_lines (lines_of (e ∷ es)) n ≡ parse_lines (lines_of es) (parse_line (words_of e) n)
unfolding parse_lines lines_of
parse_lines-entry e es n h =
    ap (λ ws. parse_lines (lines_of es) (parse_line ws n)) (fields-line_of e es h)

abbrev Gives : List NetrcEntry → Option NetrcEntry → Netrc → Type 0
Gives es d n = ((finish n).entries ≡ es) × ((finish n).default_entry ≡ d)

-- The parser with an entry in hand, after others.
abbrev in_hand : List NetrcEntry → NetrcEntry → Option NetrcEntry → Netrc
in_hand before c d = record {
  entries = before;
  default_entry = d;
  current = some c;
  is_default = false;
}

finish-entries :
    (es before : List NetrcEntry) (c : NetrcEntry) (d : Option NetrcEntry)
    → is_word c.machine ≡ true
    → all_plain es ≡ true
    → Gives (before ++ c ∷ es) d (parse_lines (lines_of es) (in_hand before c d))
unfolding finish parse_lines lines_of all_plain
finish-entries [] before c d named h = rw (word-named c.machine named) (refl, refl)
finish-entries (e ∷ es) before c d named h =
    let rest = finish-entries es (before ++ c ∷ []) e d (ground (arith, h)) (ground (arith, h)) in
    subst (Gives (before ++ c ∷ e ∷ es) d) (sym (parse_lines-entry e es (in_hand before c d) h)) (
      unfold words_of parse_line begin_entry change_current keyword with_value in
      (rest.0 ∙ append_assoc before (c ∷ []) (e ∷ es), rest.1))

abbrev no_entries : Netrc
no_entries = record { entries = []; default_entry = none; current = none; is_default = false }

load_netrc-finish : (ls : List String) → load_netrc ls ≡ finish (parse_lines ls no_entries)
unfolding load_netrc finish
load_netrc-finish ls = refl

-- A file that lists entries, each on a line of its own with a space after each word, all whose machines, logins,
-- passwords and accounts are words (not empty and without white space), is read as these entries, in their order,
-- and without a default.
pub load_netrc-lines_of :
    (es : List NetrcEntry)
    → all_plain es ≡ true
    → ((load_netrc (lines_of es)).entries ≡ es) × ((load_netrc (lines_of es)).default_entry ≡ none)
load_netrc-lines_of [] h = unfold load_netrc parse_lines lines_of in (refl, refl)
load_netrc-lines_of (e ∷ es) h =
    rw (load_netrc-finish (lines_of (e ∷ es)), parse_lines-entry e es no_entries h)
      (unfold words_of parse_line begin_entry change_current keyword with_value all_plain in
        finish-entries es [] e none (ground (arith, h)) (ground (arith, h)))
