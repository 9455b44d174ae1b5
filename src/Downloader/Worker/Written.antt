-- ===== src/Downloader/Worker/Written.antt =====
-- What a worker marks as done against what it has written.
use afd.Prelude.{
  ℕ, ◌+◌, ◌-◌, ◌*◌, ◌/◌, ◌^◌, ◌≤◌, ◌<◌, ◌≡◌, refl, sym, ◌∙◌, ◌⊎◌, inl, inr, Bool, true, false, ◌&&◌,
  ◌||◌, List, [], ◌∷◌, arith, if◌then◌else◌, ltb, leb, ◌==◌, ==_iff, Bool-cases, pos, pos_part,
  neg_part, ltb_ℤ, -ℤ_parts, leb_ℤ, subst,
}
use afd.Downloader.Bitfield.{is_bit_set, block_length_at}
use afd.Downloader.Piece.{
  Piece, next_unused_block, complete_block, is_complete, block_index_for_offset,
}
use afd.Downloader.Piece.Blocks.{
  IsSound, set_use_bit_frame, next_unused_block_lem, next_unused_block-IsSound,
  complete_block-IsSound, complete_block_marks,
}
use afd.Downloader.Piece.Frame.{
  SameBlocks, SameBlocks-refl, SameBlocks-trans, block_length_at-same, next_unused_block-SameBlocks,
  is_bit_set-next_unused_block, complete_block-SameBlocks, cancel_block-SameBlocks,
  is_bit_set-cancel_block, cancel_block-IsSound, block_index-begin, set_use_bit-SameBlocks,
}
use afd.Downloader.Worker.{
  finished, block_done, interrupted, read_failed, short_read, Read, SpeedLimit, Transfer, Exit,
  Step, Ending, more, end_of_file, broken, reading, left, with_piece, cancel_current,
  start_transfer, store, check_speed, continue_with, advance_block, take_data, end_read, read_loop,
}

-- Did one of the calls of `WriteAt` store the byte at this offset of the file?
unfoldable pub is_written : ℕ → List (ℕ × ℕ) → Bool
is_written x [] = false
is_written x ((offset, n) ∷ ws) = (leb offset x && ltb x (offset + n)) || is_written x ws

-- Every byte of block `i` of the piece is written.
abbrev pub BlockWritten : Piece → ℕ → List (ℕ × ℕ) → Type 0
BlockWritten p i ws =
    (x : ℕ)
    → p.start + i * p.blocks.block_length ≤ x
    → x < p.start + i * p.blocks.block_length + block_length_at p.blocks i
    → is_written x ws ≡ true

pub check_speed_resets :
    (limit : SpeedLimit) (now n : ℕ) (t : Transfer)
    → (bytes : ℕ) × (begun : ℕ) × ((check_speed limit now n t).1
        ≡ record t { low_bytes = bytes; low_start = begun })
unfolding check_speed
check_speed_resets limit now n t = elim (Bool-cases (ltb 0 limit.min_speed)) [
  | inr off ↦ rw off (t.low_bytes, t.low_start, refl)
  | inl on ↦ rw on (elim (Bool-cases (leb (10 ^ 9) (now - t.low_start))) [
    | inr early ↦ rw early (t.low_bytes + n, t.low_start, refl)
    | inl due ↦
        rw due
          (elim (Bool-cases
            (ltb ((t.low_bytes + n) / ((now - t.low_start) / 10 ^ 9)) limit.min_speed)) [
              | inl slow ↦ rw slow (t.low_bytes + n, t.low_start, refl)
              | inr fast ↦ rw fast (0, now, refl)
            ])
  ])
]

pub Step-cases :
    (s : Step) → ((t : Transfer) × (s ≡ reading t)) ⊎ ((e : Exit) × (t : Transfer) × (s ≡ left e t))
Step-cases (reading t) = inl (t, refl)
Step-cases (left e t) = inr (e, t, refl)

module _ (p : Piece) (first : ℕ) where
  -- What holds of the variables whatever the loop does with them.
  pub record Honest (t : Transfer) : Type 0 where
    pub sound : IsSound t.piece
    pub same : SameBlocks p t.piece
    reached : first ≤ t.current_offset
    filled : (x : ℕ) → first ≤ x → x < t.current_offset → is_written x t.writes ≡ true
    pub done :
        (i : ℕ)
        → is_bit_set t.piece.blocks i ≡ true
        → (is_bit_set p.blocks i ≡ true) ⊎ BlockWritten p i t.writes

  -- The current block, whose end is where the remaining bytes lead.
  record InBlock (t : Transfer) : Type 0 where
    block : ℕ
    at : t.current_block ≡ pos block
    begun : first ≤ p.start + block * p.blocks.block_length
    ends :
        t.current_offset + pos_part t.remaining
        ≡ p.start
          + block * p.blocks.block_length
          + block_length_at p.blocks block
          + neg_part t.remaining

  pub record Going (t : Transfer) : Type 0 where
    honest : Honest t
    inside : InBlock t

  HonestStep : Step → Type 0
  HonestStep (reading t) = Going t
  HonestStep (left e t) = Honest t

  -- A block that the current offset has passed.
  passed :
      (t : Transfer) (b : InBlock t)
      → Honest t
      → leb_ℤ t.remaining (pos 0) ≡ true
      → BlockWritten p b.block t.writes
  passed t b h over x l u = h.filled x (omega (arith, b.begun)) (ground (arith, b.ends))

  store-Going : (n : ℕ) (t : Transfer) → Going t → Going (store n t)
  unfolding store is_written
  store-Going n t g = record {
    honest = record {
      sound = g.honest.sound;
      same = g.honest.same;
      reached = omega (arith, g.honest.reached);
      filled = λ x l u. ground (arith, g.honest.filled x l);
      done = λ i h. elim (g.honest.done i h) [
        | inl before ↦ inl before
        | inr all ↦ inr (λ x l u. ground (arith, all x l u))
      ];
    };
    inside = record {
      block = g.inside.block;
      at = g.inside.at;
      begun = g.inside.begun;
      ends = omega (arith, g.inside.ends, -ℤ_parts t.remaining (pos n));
    };
  }

  reset-Going :
      (t : Transfer) (bytes begun : ℕ)
      → Going t
      → Going (record t { low_bytes = bytes; low_start = begun })
  reset-Going t bytes begun g = record {
    honest = record {
      sound = g.honest.sound;
      same = g.honest.same;
      reached = g.honest.reached;
      filled = g.honest.filled;
      done = g.honest.done;
    };
    inside = record {
      block = g.inside.block;
      at = g.inside.at;
      begun = g.inside.begun;
      ends = g.inside.ends;
    };
  }

  check_speed-Going :
      (limit : SpeedLimit) (now n : ℕ) (t : Transfer)
      → Going t
      → Going (check_speed limit now n t).1
  check_speed-Going limit now n t g =
      let (bytes, begun, e) = check_speed_resets limit now n t in
      subst Going (sym e) (reset-Going t bytes begun g)

  -- A change of the piece that leaves the marks of the done blocks alone.
  move-Honest :
      (t : Transfer) (q : Piece)
      → IsSound q
      → SameBlocks t.piece q
      → ((j : ℕ) → is_bit_set q.blocks j ≡ is_bit_set t.piece.blocks j)
      → Honest t
      → Honest (with_piece t q)
  move-Honest t q sound same marks h = record {
    sound = sound;
    same = SameBlocks-trans h.same same;
    reached = h.reached;
    filled = h.filled;
    done = λ i k. h.done i (sym (marks i) ∙ k);
  }

  cancel_current-Honest : (t : Transfer) → Honest t → Honest (cancel_current t)
  unfolding cancel_current
  cancel_current-Honest t h =
      move-Honest t _ (cancel_block-IsSound t.piece t.current_block h.sound)
        (cancel_block-SameBlocks t.piece t.current_block)
        (is_bit_set-cancel_block t.piece t.current_block) h

  complete-Honest :
      (t : Transfer)
      → Going t
      → leb_ℤ t.remaining (pos 0) ≡ true
      → Honest (with_piece t (complete_block t.piece t.current_block))
  complete-Honest t g over = record {
    sound = complete_block-IsSound t.piece t.current_block g.honest.sound;
    same = SameBlocks-trans g.honest.same (complete_block-SameBlocks t.piece t.current_block);
    reached = g.honest.reached;
    filled = g.honest.filled;
    done = λ i k. elim (Bool-cases (g.inside.block == i)) [
      | inl this ↦ inr (
          subst (λ j. BlockWritten p j t.writes) ((==_iff _ _).0 this)
            (passed t g.inside g.honest over))
      | inr other ↦ g.honest.done i (
          ground (arith, complete_block_marks t.piece g.inside.block i g.honest.sound, g.inside.at))
    ];
  }

  -- The next block, where it begins at the current offset.
  enter-Going :
      (t : Transfer) (off len i : ℕ)
      → Honest t
      → i < t.piece.blocks.num_blocks
      → off ≡ t.piece.start + i * t.piece.blocks.block_length
      → len ≡ block_length_at t.piece.blocks i
      → off ≡ t.current_offset
      → Going (record t { current_block = block_index_for_offset t.piece off; remaining = pos len })
  enter-Going t off len i h l begin size here = record {
    honest = record {
      sound = h.sound;
      same = h.same;
      reached = h.reached;
      filled = h.filled;
      done = h.done;
    };
    inside = record {
      block = i;
      at = rw begin (block_index-begin t.piece i h.sound l);
      begun = rw (sym h.same.start, sym h.same.unit) (omega (arith, begin, here, h.reached));
      ends =
          rw (sym (block_length_at-same i h.same), sym h.same.start, sym h.same.unit)
            (omega (arith, begin, size, here));
    };
  }

  continue-Honest :
      (t : Transfer) → Honest t → HonestStep (continue_with t (next_unused_block t.piece))
  unfolding continue_with HonestStep
  continue-Honest t h =
      let moved =
        move-Honest t _ (next_unused_block-IsSound t.piece h.sound)
          (next_unused_block-SameBlocks t.piece) (is_bit_set-next_unused_block t.piece) h in
      elim (next_unused_block_lem t.piece) [
        | inl (e, _) ↦ rw e h
        | inr (i, e, inside, _, _, _) ↦
            let taken = subst (λ r. Honest (with_piece t r.0)) e moved in
            let frame = set_use_bit_frame t.piece.blocks (pos i) in
            elim (Bool-cases
              (t.piece.start + i * t.piece.blocks.block_length == t.current_offset)) [
                | inl here ↦
                    rw (e, here)
                      (enter-Going (with_piece t _) _ _ i taken (rw frame.0 inside)
                        (rw frame.1 refl)
                        (sym (block_length_at-same i (set_use_bit-SameBlocks t.piece i)))
                        ((==_iff _ _).0 here))
                | inr apart ↦ rw (e, apart) taken
              ]
      ]

  advance_block-Honest : (t : Transfer) → Going t → HonestStep (advance_block t)
  unfolding advance_block HonestStep
  advance_block-Honest t g = elim (Bool-cases (leb_ℤ t.remaining (pos 0))) [
    | inr more_left ↦ rw more_left g
    | inl over ↦
        let completed = complete-Honest t g over in
        elim (Bool-cases (is_complete (complete_block t.piece t.current_block))) [
          | inl all ↦ rw (over, all) completed
          | inr some_left ↦ rw (over, some_left) (continue-Honest (with_piece t _) completed)
        ]
  ]

  take_data-Honest :
      (limit : SpeedLimit) (r : Read) (t : Transfer) → Going t → HonestStep (take_data limit r t)
  unfolding take_data HonestStep
  take_data-Honest limit r t g =
      let stored =
        check_speed-Going limit r.now r.count (store r.count t) (store-Going r.count t g) in
      elim (Bool-cases (r.count == 0)) [
        | inl none_read ↦ rw none_read g
        | inr some_read ↦ elim (Bool-cases r.allowed) [
          | inr refused ↦ rw (some_read, refused) (cancel_current-Honest t g.honest)
          | inl let_through ↦ elim (Bool-cases r.stored) [
            | inr lost ↦ rw (some_read, let_through, lost) (cancel_current-Honest t g.honest)
            | inl kept ↦ elim (Bool-cases (check_speed limit r.now r.count (store r.count t)).0) [
              | inl slow ↦
                  rw (some_read, let_through, kept, slow) (cancel_current-Honest _ stored.honest)
              | inr fast ↦ rw (some_read, let_through, kept, fast) (advance_block-Honest _ stored)
            ]
          ]
        ]
      ]

  end_read-Honest : (r : Read) (t : Transfer) → Going t → HonestStep (end_read r t)
  unfolding end_read HonestStep
  end_read-Honest r t g = by_ending r.ending
    where
      by_ending :
          (e : Ending)
          → HonestStep (elim e [
            | more ↦ reading t
            | end_of_file ↦
                if ltb_ℤ (pos 0) t.remaining
                then left (short_read t.current_block t.remaining) t
                else left
                    (if is_complete (complete_block t.piece t.current_block)
                      then finished
                      else block_done)
                    (with_piece t (complete_block t.piece t.current_block))
            | broken ↦ left (if r.cancelled then interrupted else read_failed) (cancel_current t)
          ])
      by_ending more = g
      by_ending end_of_file = elim (Bool-cases (ltb_ℤ (pos 0) t.remaining)) [
        | inl short ↦ rw short g.honest
        | inr whole ↦ rw whole (complete-Honest t g (ground arith))
      ]
      by_ending broken = cancel_current-Honest t g.honest

  pub read_loop-Honest :
      (limit : SpeedLimit) (rs : List Read) (t : Transfer)
      → Going t
      → Honest (read_loop limit rs t).1
  unfolding read_loop HonestStep
  read_loop-Honest limit [] t g = g.honest
  read_loop-Honest limit (r ∷ rs) t g = elim (Step-cases (take_data limit r t)) [
    | inr (e, t', out) ↦ rw (read_loop, out) (subst HonestStep out (take_data-Honest limit r t g))
    | inl (t', on) ↦
        let g' = subst HonestStep on (take_data-Honest limit r t g) in
        elim (Step-cases (end_read r t')) [
          | inr (e, t'', out) ↦
              rw (read_loop, on, out) (subst HonestStep out (end_read-Honest r t' g'))
          | inl (t'', again) ↦
              rw (read_loop, on, again)
                (read_loop-Honest limit rs t'' (subst HonestStep again (end_read-Honest r t' g')))
        ]
  ]

pub start-Going :
    (p : Piece) (i now : ℕ)
    → IsSound p
    → i < p.blocks.num_blocks
    → Going p
        (p.start + i * p.blocks.block_length)
        (start_transfer p (p.start + i * p.blocks.block_length) (block_length_at p.blocks i) now)
unfolding start_transfer
start-Going p i now s l = record {
  honest = record {
    sound = s;
    same = SameBlocks-refl p;
    reached = omega arith;
    filled = λ x h k. absurd (omega (arith, h, k));
    done = λ j h. inl h;
  };
  inside = record {
    block = i;
    at = block_index-begin p i s l;
    begun = omega arith;
    ends = omega arith;
  };
}

-- Whatever a response and its errors are, a block of a sound piece that is marked as done after it was marked
-- before, or every byte of it has been written to the file during the response, which began with the bytes of
-- block `i`.
pub read_loop-honest :
    (limit : SpeedLimit) (rs : List Read) (p : Piece) (i now j : ℕ)
    → IsSound p
    → i < p.blocks.num_blocks
    → is_bit_set
        (read_loop limit rs (
          start_transfer p
            (p.start + i * p.blocks.block_length)
            (block_length_at p.blocks i)
            now)).1.piece.blocks
        j
      ≡ true
    → (is_bit_set p.blocks j ≡ true)
      ⊎ BlockWritten p j
          (read_loop limit rs (
            start_transfer p
              (p.start + i * p.blocks.block_length)
              (block_length_at p.blocks i)
              now)).1.writes
read_loop-honest limit rs p i now j s l marked =
    (read_loop-Honest p (p.start + i * p.blocks.block_length) limit rs _
        (start-Going p i now s l)).done
      j marked
