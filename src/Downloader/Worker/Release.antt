-- ===== src/Downloader/Worker/Release.antt =====
-- Which blocks a worker leaves taken when it is done with a response.
use afd.Prelude.{
  ℕ, ◌+◌, ◌*◌, ◌<◌, ◌≡◌, ◌≢◌, refl, sym, ◌∙◌, ◌⊎◌, inl, inr, Bool, true, false, List, [], ◌∷◌,
  arith, if◌then◌else◌, ◌==◌, ==_iff, Bool-cases, ℤ, pos, negsuc, ltb_ℤ, leb_ℤ, subst,
}
use afd.Downloader.Bitfield.{
  BitfieldMan, is_use_bit_set, block_length_at, set_bit, set_use_bit, unset_use_bit,
}
use afd.Downloader.Bitfield.Invariant.{
  WellFormed, set_bit-WellFormed, is_use_bit_set-set_use_bit, is_use_bit_set-unset_use_bit,
}
use afd.Downloader.Piece.{
  Piece, next_unused_block, complete_block, cancel_block, is_complete, block_index_for_offset,
}
use afd.Downloader.Piece.Blocks.{
  IsSound, set_use_bit_frame, next_unused_block_lem, next_unused_block-IsSound,
  complete_block-IsSound,
}
use afd.Downloader.Piece.Frame.{block_index-begin, block_index-at}
use afd.Downloader.Worker.{
  Read, SpeedLimit, Transfer, Exit, finished, no_next_block, not_adjacent, block_done, rate_limited,
  write_failed, low_speed, interrupted, read_failed, short_read, waiting, Step, Ending, more,
  end_of_file, broken, reading, left, with_piece, cancel_current, start_transfer, store,
  check_speed, continue_with, advance_block, take_data, end_read, read_loop,
}
use afd.Downloader.Worker.Written.{check_speed_resets, Step-cases}

-- The ends of a response at which no block stays taken.
unfoldable pub releases : Exit → Bool
releases finished = true
releases no_next_block = true
releases not_adjacent = false
releases block_done = true
releases rate_limited = true
releases write_failed = true
releases low_speed = true
releases interrupted = true
releases read_failed = true
releases (short_read b n) = false
releases waiting = false

unset_frees :
    (b : BitfieldMan) (i j : ℕ)
    → WellFormed b
    → is_use_bit_set (unset_use_bit b (pos i)) j ≡ true
    → (is_use_bit_set b j ≡ true) × (i ≢ j)
unfolding is_use_bit_set unset_use_bit
unset_frees b i j wf h = elim (Bool-cases (i == j)) [
  | inl same ↦ ground (arith, is_use_bit_set-unset_use_bit b wf i j)
  | inr other ↦ (ground (arith, is_use_bit_set-unset_use_bit b wf i j), λ e. ground arith)
]

cancel_frees :
    (p : Piece) (i j : ℕ)
    → IsSound p
    → is_use_bit_set (cancel_block p (pos i)).blocks j ≡ true
    → (is_use_bit_set p.blocks j ≡ true) × (i ≢ j)
unfolding cancel_block
cancel_frees p i j s h = unset_frees p.blocks i j s.formed h

set_bit_use :
    (b : BitfieldMan) (i : ℤ) (j : ℕ) → is_use_bit_set (set_bit b i) j ≡ is_use_bit_set b j
unfolding is_use_bit_set set_bit
set_bit_use b (pos i) j = ground arith
set_bit_use b (negsuc i) j = refl

complete_frees :
    (p : Piece) (i j : ℕ)
    → IsSound p
    → is_use_bit_set (complete_block p (pos i)).blocks j ≡ true
    → (is_use_bit_set p.blocks j ≡ true) × (i ≢ j)
unfolding complete_block
complete_frees p i j s h =
    let free =
      unset_frees (set_bit p.blocks (pos i)) i j (set_bit-WellFormed p.blocks (pos i) s.formed) in
    let out = free (ground arith) in (sym (set_bit_use p.blocks (pos i) j) ∙ out.0, out.1)

module _ (Before : ℕ → Type 0) where
  -- Only the current block is taken, beside those that were taken before.
  record Holding (t : Transfer) : Type 0 where
    sound : IsSound t.piece
    block : ℕ
    at : t.current_block ≡ pos block
    held : (j : ℕ) → is_use_bit_set t.piece.blocks j ≡ true → Before j ⊎ (block ≡ j)

  Released : Transfer → Type 0
  Released t = (j : ℕ) → is_use_bit_set t.piece.blocks j ≡ true → Before j

  HoldingStep : Step → Type 0
  HoldingStep (reading t) = Holding t
  HoldingStep (left e t) = releases e ≡ true → Released t

  cancel_current-Released : (t : Transfer) → Holding t → Released (cancel_current t)
  unfolding cancel_current Released
  cancel_current-Released t h j u =
      let out =
        cancel_frees t.piece h.block j h.sound
          (subst (λ b. is_use_bit_set (cancel_block t.piece b).blocks j ≡ true) h.at u) in
      elim (h.held j out.0) [ inl before ↦ before | inr same ↦ absurd (out.1 same) ]

  complete-Released :
      (t : Transfer) → Holding t → Released (with_piece t (complete_block t.piece t.current_block))
  unfolding Released
  complete-Released t h j u =
      let out =
        complete_frees t.piece h.block j h.sound
          (subst (λ b. is_use_bit_set (complete_block t.piece b).blocks j ≡ true) h.at u) in
      elim (h.held j out.0) [ inl before ↦ before | inr same ↦ absurd (out.1 same) ]

  refocus-Holding :
      (t : Transfer) (offset : ℕ) (remaining : ℤ) (bytes begun : ℕ) (ws : List (ℕ × ℕ))
      → Holding t
      → Holding (record t {
        current_offset = offset;
        remaining = remaining;
        low_bytes = bytes;
        low_start = begun;
        writes = ws;
      })
  refocus-Holding t offset remaining bytes begun ws h = record {
    sound = h.sound;
    block = h.block;
    at = h.at;
    held = h.held;
  }

  store-Holding :
      (limit : SpeedLimit) (now n : ℕ) (t : Transfer)
      → Holding t
      → Holding (check_speed limit now n (store n t)).1
  unfolding store
  store-Holding limit now n t h =
      let (bytes, begun, e) = check_speed_resets limit now n (store n t) in
      subst Holding (sym e) (refocus-Holding t _ _ bytes begun _ h)

  enter-Holding :
      (t : Transfer) (i len : ℕ)
      → IsSound t.piece
      → Released t
      → i < t.piece.blocks.num_blocks
      → IsSound (record t.piece { blocks = set_use_bit t.piece.blocks (pos i) })
      → Holding (record t {
        piece = record t.piece { blocks = set_use_bit t.piece.blocks (pos i) };
        current_block =
            block_index_for_offset
              (record t.piece { blocks = set_use_bit t.piece.blocks (pos i) })
              (t.piece.start + i * t.piece.blocks.block_length);
        remaining = pos len;
      })
  unfolding Released
  enter-Holding t i len s free inside s' =
      let frame = set_use_bit_frame t.piece.blocks (pos i) in
      record {
        sound = s';
        block = i;
        at = block_index-at _ _ i s' (rw frame.0 inside) (rw frame.1 refl);
        held = λ j u. elim (Bool-cases (i == j)) [
          | inl same ↦ inr ((==_iff i j).0 same)
          | inr other ↦
              inl (free j (ground (arith, is_use_bit_set-set_use_bit t.piece.blocks s.formed i j)))
        ];
      }

  continue-Holding :
      (t : Transfer)
      → IsSound t.piece
      → Released t
      → HoldingStep (continue_with t (next_unused_block t.piece))
  unfolding continue_with HoldingStep releases
  continue-Holding t s free = elim (next_unused_block_lem t.piece) [
    | inl (e, _) ↦ rw e (λ _. free)
    | inr (i, e, inside, _, _, _) ↦
        elim (Bool-cases (t.piece.start + i * t.piece.blocks.block_length == t.current_offset)) [
          | inl here ↦
              rw (e, here)
                (enter-Holding t i _ s free inside
                  (subst (λ r. IsSound r.0) e (next_unused_block-IsSound t.piece s)))
          | inr apart ↦ rw (e, apart) (λ stranded. ground (arith, stranded))
        ]
  ]

  advance_block-Holding : (t : Transfer) → Holding t → HoldingStep (advance_block t)
  unfolding advance_block HoldingStep
  advance_block-Holding t h = elim (Bool-cases (leb_ℤ t.remaining (pos 0))) [
    | inr more_left ↦ rw more_left h
    | inl over ↦
        let free = complete-Released t h in
        elim (Bool-cases (is_complete (complete_block t.piece t.current_block))) [
          | inl all ↦ rw (over, all) (λ _. free)
          | inr some_left ↦
              rw (over, some_left)
                (continue-Holding (with_piece t _)
                  (complete_block-IsSound t.piece t.current_block h.sound) free)
        ]
  ]

  take_data-Holding :
      (limit : SpeedLimit) (r : Read) (t : Transfer) → Holding t → HoldingStep (take_data limit r t)
  unfolding take_data HoldingStep
  take_data-Holding limit r t h =
      let stored = store-Holding limit r.now r.count t h in
      elim (Bool-cases (r.count == 0)) [
        | inl none_read ↦ rw none_read h
        | inr some_read ↦ elim (Bool-cases r.allowed) [
          | inr refused ↦ rw (some_read, refused) (λ _. cancel_current-Released t h)
          | inl let_through ↦ elim (Bool-cases r.stored) [
            | inr lost ↦ rw (some_read, let_through, lost) (λ _. cancel_current-Released t h)
            | inl kept ↦ elim (Bool-cases (check_speed limit r.now r.count (store r.count t)).0) [
              | inl slow ↦
                  rw (some_read, let_through, kept, slow) (λ _. cancel_current-Released _ stored)
              | inr fast ↦ rw (some_read, let_through, kept, fast) (advance_block-Holding _ stored)
            ]
          ]
        ]
      ]

  end_read-Holding : (r : Read) (t : Transfer) → Holding t → HoldingStep (end_read r t)
  unfolding end_read HoldingStep releases
  end_read-Holding r t h = by_ending r.ending
    where
      by_ending :
          (e : Ending)
          → HoldingStep (elim e [
            | more ↦ reading t
            | end_of_file ↦
                if ltb_ℤ (pos 0) t.remaining
                then left (short_read t.current_block t.remaining) t
                else left
                    (if is_complete (complete_block t.piece t.current_block)
                      then finished
                      else block_done)
                    (with_piece t (complete_block t.piece t.current_block))
            | broken ↦ left (if r.cancelled then interrupted else read_failed) (cancel_current t)
          ])
      by_ending more = h
      by_ending end_of_file = elim (Bool-cases (ltb_ℤ (pos 0) t.remaining)) [
        | inl short ↦ rw short (λ stranded. ground (arith, stranded))
        | inr whole ↦ rw whole (λ _. complete-Released t h)
      ]
      by_ending broken = λ _. cancel_current-Released t h

  read_loop-Holding :
      (limit : SpeedLimit) (rs : List Read) (t : Transfer)
      → Holding t
      → releases (read_loop limit rs t).0 ≡ true
      → Released (read_loop limit rs t).1
  unfolding read_loop HoldingStep releases
  read_loop-Holding limit [] t h = λ stranded. ground (arith, stranded)
  read_loop-Holding limit (r ∷ rs) t h = elim (Step-cases (take_data limit r t)) [
    | inr (e, t', out) ↦ rw (read_loop, out) (subst HoldingStep out (take_data-Holding limit r t h))
    | inl (t', on) ↦
        let h' = subst HoldingStep on (take_data-Holding limit r t h) in
        elim (Step-cases (end_read r t')) [
          | inr (e, t'', out) ↦
              rw (read_loop, on, out) (subst HoldingStep out (end_read-Holding r t' h'))
          | inl (t'', again) ↦
              rw (read_loop, on, again)
                (read_loop-Holding limit rs t''
                  (subst HoldingStep again (end_read-Holding r t' h')))
        ]
  ]

-- A response that does not end in a short read, nor where the next block begins elsewhere, leaves no block
-- taken that was not taken before it, and block `i`, for which it was requested, is not taken either.
pub read_loop-releases :
    (limit : SpeedLimit) (rs : List Read) (p : Piece) (i now j : ℕ)
    → IsSound p
    → i < p.blocks.num_blocks
    → releases
        (read_loop limit rs (
          start_transfer p
            (p.start + i * p.blocks.block_length)
            (block_length_at p.blocks i)
            now)).0
      ≡ true
    → is_use_bit_set
        (read_loop limit rs (
          start_transfer p
            (p.start + i * p.blocks.block_length)
            (block_length_at p.blocks i)
            now)).1.piece.blocks
        j
      ≡ true
    → (is_use_bit_set p.blocks j ≡ true) × (i ≢ j)
unfolding start_transfer Released
read_loop-releases limit rs p i now j s l out u =
    read_loop-Holding (λ k. (is_use_bit_set p.blocks k ≡ true) × (i ≢ k)) limit rs _
      (record {
        sound = s;
        block = i;
        at = block_index-begin p i s l;
        held = λ k v. elim (Bool-cases (i == k)) [
          | inl same ↦ inr ((==_iff i k).0 same)
          | inr other ↦ inl (v, λ e. ground arith)
        ];
      })
      out j u
