-- ===== src/Downloader/PieceManager/Progress.antt =====
-- Progress over all pieces of a file, and saving and restoring it.
use afd.Prelude.{
  ℕ, ◌+◌, ◌≤◌, ◌≡◌, refl, subst, ap, sym, ◌∙◌, ◌↔◌, true, false, arith, Bool-cases, inl, inr, pos,
  List, [], ◌∷◌, ◌++◌, some, length, map, replicate, length-replicate, length-append,
}
use mathlib.Core.List.{append-nil}
use afd.Downloader.Bitfield.{set_bitfield}
use afd.Downloader.Bitfield.Lengths.{completed_length-le, completed-total_iff}
use afd.Downloader.Piece.{Piece, is_complete, piece_completed_length}
use afd.Downloader.Piece.Blocks.{IsSound}
use afd.Downloader.Split.Cover.{Tiles}
use afd.Downloader.PieceManager.{
  PieceBitfieldEntry, Base64, all_complete, total_completed_length, any_nonzero,
  serialize_piece_bitfields, restore_piece, restore_at, restore_piece_bitfields,
}

abbrev pub AllSound : List Piece → Type 0
AllSound [] = Unit {0}
AllSound (p ∷ ps) = IsSound p × AllSound ps

-- No more is ever reported as done than the file holds.
pub total_completed-le :
    (i a b : ℕ) (ps : List Piece) → AllSound ps → Tiles i a ps b → a + total_completed_length ps ≤ b
unfolding total_completed_length piece_completed_length
total_completed-le i a b [] s t = omega arith
total_completed-le i a b (p ∷ ps) s t = omega (
  arith,
  completed_length-le p.blocks s.0.covers,
  s.0.fits,
  total_completed-le (i + 1) (a + p.length) b ps s.1 t.3,
)

-- For sound pieces that tile the bytes from a to b, every piece is complete exactly when a and the bytes
-- reported as done add up to b.
pub all_complete_iff :
    (i a b : ℕ) (ps : List Piece)
    → AllSound ps
    → Tiles i a ps b
    → (all_complete ps ≡ true) ↔ (a + total_completed_length ps ≡ b)
unfolding all_complete total_completed_length piece_completed_length is_complete
all_complete_iff i a b [] s t = (λ h. omega arith, λ h. refl)
all_complete_iff i a b (p ∷ ps) s t = ground (
  arith,
  completed_length-le p.blocks s.0.covers,
  completed-total_iff p.blocks s.0.formed s.0.covers,
  s.0.fits,
  total_completed-le (i + 1) (a + p.length) b ps s.1 t.3,
  all_complete_iff (i + 1) (a + p.length) b ps s.1 t.3,
)

abbrev pub bitfields : List Piece → List (List ℕ)
bitfields = map (λ (p : Piece). p.blocks.bitfield)

-- `qs` are the pieces of the same file, numbered from `i`, before anything was downloaded.
abbrev pub Fresh : ℕ → List Piece → List Piece → Type 0
Fresh i [] [] = Unit {0}
Fresh i [] (p ∷ ps) = ⊥
Fresh i (q ∷ qs) [] = ⊥
Fresh i (q ∷ qs) (p ∷ ps) =
    (p.index ≡ i)
    × (q.blocks.bitfield ≡ replicate (length p.blocks.bitfield) 0)
    × Fresh (i + 1) qs ps

any_nonzero-false : (bs : List ℕ) → any_nonzero bs ≡ false → bs ≡ replicate (length bs) 0
unfolding any_nonzero
any_nonzero-false [] h = refl
any_nonzero-false (b ∷ bs) h =
    let zero_head : b ≡ 0 = ground arith in
    rw zero_head (ap (◌∷◌ 0) (any_nonzero-false bs (ground arith)))

bitfield-restore_piece :
    (q : Piece) (bf : List ℕ)
    → length bf ≡ length q.blocks.bitfield
    → (restore_piece q bf).blocks.bitfield ≡ bf
unfolding restore_piece set_bitfield
bitfield-restore_piece q bf h = ground (arith, h)

restore_at-append :
    (pre : List Piece) (q : Piece) (qs : List Piece) (bf : List ℕ)
    → restore_at (pre ++ q ∷ qs) (length pre) bf ≡ (pre ++ restore_piece q bf ∷ []) ++ qs
unfolding restore_at
restore_at-append [] q qs bf = refl
restore_at-append (p ∷ pre) q qs bf = ap (◌∷◌ p) (restore_at-append pre q qs bf)

append_one :
    (pre : List Piece) (q : Piece) (qs : List Piece) → pre ++ q ∷ qs ≡ (pre ++ q ∷ []) ++ qs
append_one [] q qs = refl
append_one (p ∷ pre) q qs = ap (◌∷◌ p) (append_one pre q qs)

bitfields-snoc :
    (pre : List Piece) (r : Piece) (bf : List ℕ) (rest : List (List ℕ))
    → r.blocks.bitfield ≡ bf
    → bitfields (pre ++ r ∷ []) ++ rest ≡ bitfields pre ++ bf ∷ rest
bitfields-snoc [] r bf rest e = ap (λ x. x ∷ rest) e
bitfields-snoc (p ∷ pre) r bf rest e = ap (◌∷◌ p.blocks.bitfield) (bitfields-snoc pre r bf rest e)

Fresh-snoc :
    (pre : List Piece) (r : Piece) (qs ps : List Piece)
    → Fresh (length pre + 1) qs ps
    → Fresh (length (pre ++ r ∷ [])) qs ps
Fresh-snoc pre r qs ps f = subst (λ n. Fresh n qs ps) (sym (length-append pre (r ∷ []))) f

module _ {Text : Type 0} (codec : Base64 Text)
    (decoded : (bs : List ℕ) → codec.decode (codec.encode bs) ≡ some bs) where
  restore_cons :
      (qs : List Piece) (i : ℕ) (bf : List ℕ) (es : List (PieceBitfieldEntry Text))
      → restore_piece_bitfields codec qs
          (record { entry_index = pos i; entry_bitfield = codec.encode bf } ∷ es)
        ≡ restore_piece_bitfields codec (restore_at qs i bf) es
  unfolding restore_piece_bitfields
  restore_cons qs i bf es = rw (decoded bf, restore_piece_bitfields)

  restore_onto :
      (pre qs ps : List Piece)
      → Fresh (length pre) qs ps
      → bitfields (restore_piece_bitfields codec (pre ++ qs) (serialize_piece_bitfields codec ps))
        ≡ bitfields pre ++ bitfields ps
  unfolding serialize_piece_bitfields
  restore_onto pre [] [] f =
      unfold restore_piece_bitfields in
      ap bitfields (append-nil pre) ∙ sym (append-nil (bitfields pre))
  restore_onto pre [] (p ∷ ps) f = elim f [ ]
  restore_onto pre (q ∷ qs) [] f = elim f [ ]
  restore_onto pre (q ∷ qs) (p ∷ ps) f = elim (Bool-cases (any_nonzero p.blocks.bitfield)) [
    | inl some_done ↦ rw some_done (
        ap bitfields (
          restore_cons (pre ++ q ∷ qs) p.index p.blocks.bitfield
            (serialize_piece_bitfields codec ps)
          ∙ ap (λ l. restore_piece_bitfields codec l (serialize_piece_bitfields codec ps))
              (rw f.0 (restore_at-append pre q qs p.blocks.bitfield)))
        ∙ restore_onto (pre ++ restore_piece q p.blocks.bitfield ∷ []) qs ps
            (Fresh-snoc pre _ qs ps f.2)
        ∙ bitfields-snoc pre (restore_piece q p.blocks.bitfield) p.blocks.bitfield (bitfields ps)
            (bitfield-restore_piece q p.blocks.bitfield (same_length f.1)))
    | inr none_done ↦ rw none_done (
        ap (λ l. bitfields (restore_piece_bitfields codec l (serialize_piece_bitfields codec ps)))
          (append_one pre q qs)
        ∙ restore_onto (pre ++ q ∷ []) qs ps (Fresh-snoc pre q qs ps f.2)
        ∙ bitfields-snoc pre q p.blocks.bitfield (bitfields ps)
            (f.1 ∙ sym (any_nonzero-false p.blocks.bitfield none_done)))
  ]
    where
      same_length :
          q.blocks.bitfield ≡ replicate (length p.blocks.bitfield) 0
          → length p.blocks.bitfield ≡ length q.blocks.bitfield
      same_length e = sym (ap length e ∙ length-replicate (length p.blocks.bitfield) 0)

  -- Where decoding undoes encoding, restoring the serialized bitfields of some pieces onto fresh pieces of the
  -- same file gives back their bitfields.
  pub restore-serialize :
      (qs ps : List Piece)
      → Fresh 0 qs ps
      → bitfields (restore_piece_bitfields codec qs (serialize_piece_bitfields codec ps))
        ≡ bitfields ps
  restore-serialize qs ps f = restore_onto [] qs ps f
