-- ===== src/Downloader/Netrc.antt =====
-- internal/downloader/netrc.go: the parser of a .netrc file, on the lines that the scanner gives, and the search for a
-- machine.
pub mod Written
use Prim.Native.Char.{Char, code}
use afd.Prelude.{
  ℕ, Bool, true, false, not, ◌&&◌, List, [], ◌∷◌, ◌++◌, Option, none, some, ◌||◌, String, str_eq,
  arith, if◌then◌else◌, leb, ◌==◌,
}

-- `unicode.IsSpace`
unfoldable pub is_space : ℕ → Bool
is_space c =
    leb 9 c && leb c 13
    || c == 32
    || c == 133
    || c == 160
    || c == 5760
    || leb 8192 c && leb c 8202
    || c == 8232
    || c == 8233
    || c == 8239
    || c == 8287
    || c == 12288

-- Does a word go on here?
unfoldable pub goes_on : String → Bool
unfolding is_space
goes_on String.[] = false
goes_on (String.◌∷◌ c s) = not (is_space (code c))

unfoldable pub extend_first : Char → List String → List String
extend_first c [] = String.◌∷◌ c String.[] ∷ []
extend_first c (w ∷ ws) = String.◌∷◌ c w ∷ ws

-- `strings.Fields`
unfoldable pub fields : String → List String
unfolding goes_on extend_first
fields String.[] = []
fields (String.◌∷◌ c s) =
    let rest = fields s in
    if is_space (code c)
    then rest
    else if goes_on s
    then extend_first c rest
    else String.◌∷◌ c String.[] ∷ rest

pub record NetrcEntry : Type 0 where
  pub machine : String
  pub login : String
  pub password : String
  pub account : String

-- The variables of the parser. `Default` points to the entry that was current when it was set: while that one
-- is current, a change of it is a change of `default_entry`.
pub record Netrc : Type 0 where
  pub entries : List NetrcEntry
  pub default_entry : Option NetrcEntry
  pub current : Option NetrcEntry
  pub is_default : Bool

pub data Keyword : Type 0 where
  machine_word default_word login_word password_word account_word other_word : Keyword

unfoldable pub keyword : String → Keyword
keyword t =
    if str_eq t "machine"
    then machine_word
    else if str_eq t "default"
    then default_word
    else if str_eq t "login"
    then login_word
    else if str_eq t "password"
    then password_word
    else if str_eq t "account"
    then account_word
    else other_word

abbrev pub empty_entry : NetrcEntry
empty_entry = record { machine = ""; login = ""; password = ""; account = "" }

-- The entry in hand goes to the list, and a new one takes its place.
unfoldable pub begin_entry : NetrcEntry → Bool → Netrc → Netrc
begin_entry e is_default n = record {
  entries = elim n.current [ none ↦ n.entries | some c ↦ n.entries ++ c ∷ [] ];
  default_entry = if is_default then some e else n.default_entry;
  current = some e;
  is_default = is_default;
}

-- A change of the entry in hand, if there is one.
unfoldable pub change_current : (NetrcEntry → NetrcEntry) → Netrc → Netrc
change_current f n = elim n.current [
  | none ↦ n
  | some c ↦ record n {
    current = some (f c);
    default_entry = if n.is_default then some (f c) else n.default_entry;
  }
]

-- What a keyword does with the token after it.
unfoldable pub with_value : Keyword → String → Netrc → Netrc
unfolding begin_entry change_current
with_value machine_word v n = begin_entry (record empty_entry { machine = v }) false n
with_value default_word v n = begin_entry empty_entry true n
with_value login_word v n = change_current (λ c. record c { login = v }) n
with_value password_word v n = change_current (λ c. record c { password = v }) n
with_value account_word v n = change_current (λ c. record c { account = v }) n
with_value other_word v n = n

-- A keyword at the end of a line.
unfoldable pub without_value : Keyword → Netrc → Netrc
unfolding begin_entry
without_value machine_word n = begin_entry empty_entry false n
without_value default_word n = begin_entry empty_entry true n
without_value login_word n = n
without_value password_word n = n
without_value account_word n = n
without_value other_word n = n

-- Does the keyword take the token after it?
unfoldable pub takes_value : Keyword → Bool
takes_value machine_word = true
takes_value default_word = false
takes_value login_word = true
takes_value password_word = true
takes_value account_word = true
takes_value other_word = false

-- For the keywords of a field the token after them is only passed over if there is an entry in hand.
unfoldable pub has_current : Keyword → Netrc → Bool
has_current machine_word n = true
has_current default_word n = true
has_current login_word n = elim n.current [ none ↦ false | some c ↦ true ]
has_current password_word n = elim n.current [ none ↦ false | some c ↦ true ]
has_current account_word n = elim n.current [ none ↦ false | some c ↦ true ]
has_current other_word n = true

unfoldable pub parse_line : List String → Netrc → Netrc
unfolding keyword with_value without_value takes_value has_current
parse_line [] n = n
parse_line (t ∷ []) n = without_value (keyword t) n
parse_line (t ∷ v ∷ rest) n =
    let n' = with_value (keyword t) v n in
    let passed = parse_line rest n' in
    let kept = parse_line (v ∷ rest) n' in
    if takes_value (keyword t) && has_current (keyword t) n then passed else kept

unfoldable pub parse_lines : List String → Netrc → Netrc
unfolding parse_line fields
parse_lines [] n = n
parse_lines (l ∷ ls) n = parse_lines ls (parse_line (fields l) n)

-- `LoadNetrc` past the opening of the file: an entry in hand is kept at the end if its machine has a name.
unfoldable pub load_netrc : List String → Netrc
unfolding parse_lines
load_netrc ls =
    let n =
      parse_lines ls
        (record { entries = []; default_entry = none; current = none; is_default = false }) in
    elim n.current [
      | none ↦ n
      | some c ↦ if str_eq c.machine "" then n else record n { entries = n.entries ++ c ∷ [] }
    ]

unfoldable pub find_in : String → List NetrcEntry → Option NetrcEntry
find_in machine [] = none
find_in machine (e ∷ es) =
    let rest = find_in machine es in if str_eq e.machine machine then some e else rest

unfoldable pub find_entry : Netrc → String → Option NetrcEntry
unfolding find_in
find_entry n machine = elim (find_in machine n.entries) [ some e ↦ some e | none ↦ n.default_entry ]

unfoldable pub get_credentials : Netrc → String → String × String
unfolding find_entry
get_credentials n host = elim (find_entry n host) [
  | none ↦ ("", "")
  | some e ↦ (e.login, e.password)
]
