-- ===== src/Vcdiff/Total.antt =====
-- The instructions of a window of ably-c/src/delta/vcdiff.c and the loop over them: bounds and
-- termination.
use ably_connectors.Prelude.{
  ℕ, zero, suc, ◌+◌, ◌-◌, ◌^◌, ◌≤◌, ◌<◌, ◌≡◌, arith, false, List, [], ◌∷◌, ◌++◌, length, take,
  replicate, ltb, leb, ◌==◌, length-append, length-take, length-replicate, inl, inr, Bool-cases,
}
use ably_connectors.Vcdiff.Varint.{varint}
use ably_connectors.Vcdiff.Table.{
  Inst, noop, add, run, copy, code_table, code_table_small, num_modes,
}
use ably_connectors.Vcdiff.Machine.{
  Machine, Window, add_size, out_pos, copy_address, remember, combined_byte, copy_loop,
  execute_copy, execute_add, execute_run, inst_size, execute, execute_entry, run_from, run_window,
}
use ably_connectors.Vcdiff.Defined.{
  Defined, weaken-Defined, bind-Defined, guard-Defined, in_bounds-Defined, varint-Defined,
}
use ably_connectors.Vcdiff.Safety.{IsValid, IsCapacity, copy_address-Defined, remember-Defined}

module _ (w : Window) where
  combined_byte-Defined :
      (output : List ℕ) (tgt combined : ℕ)
      → length output ≡ w.window_tgt_start + tgt
      → Defined (λ _. Unit {0}) (combined_byte w output tgt combined)
  unfolding combined_byte
  combined_byte-Defined output tgt combined e = elim (Bool-cases (ltb combined (length w.seg))) [
    | inl inside ↦ rw inside (in_bounds-Defined w.seg combined (ground arith))
    | inr past ↦ elim (Bool-cases (leb tgt (combined - length w.seg))) [
      | inl bad ↦ rw (past, bad) tt
      | inr good ↦
          rw (past, good)
            (in_bounds-Defined output (w.window_tgt_start + (combined - length w.seg))
              (ground arith))
    ]
  ]

  copy_loop-Defined :
      (n combined : ℕ) (output : List ℕ) (tgt : ℕ)
      → length output ≡ w.window_tgt_start + tgt
      → Defined
          (λ r. (length r.0 ≡ length output + n) × (r.1 ≡ tgt + n))
          (copy_loop w n combined output tgt)
  unfolding copy_loop
  copy_loop-Defined zero combined output tgt e = omega arith
  copy_loop-Defined (suc n) combined output tgt e =
      bind-Defined (λ _. Unit {0}) _ (combined_byte w output tgt combined) _
        (combined_byte-Defined output tgt combined e)
        λ b _.
          weaken-Defined _ _ (copy_loop w n (combined + 1) (output ++ (b ∷ [])) (tgt + 1))
            (λ r d. omega (arith, d, length-append output (b ∷ [])))
            (copy_loop-Defined n (combined + 1) (output ++ (b ∷ [])) (tgt + 1)
              (omega (arith, length-append output (b ∷ []))))

  module _ (cap : IsCapacity w) (n : ℕ) where
    room :
        (m : Machine) (size : ℕ)
        → IsValid w n m
        → size < 2 ^ 63
        → ltb w.out_cap (add_size (out_pos m) size) ≡ false
        → length m.output + size ≤ w.out_cap
    room m size v h e = ground (arith, v.fits)

    execute_copy-Defined :
        (m : Machine) (mode size : ℕ)
        → IsValid w n m
        → size < 2 ^ 63
        → Defined (IsValid w n) (execute_copy w m mode size)
    unfolding execute_copy
    execute_copy-Defined m mode size v h =
        guard-Defined (IsValid w n) (leb num_modes mode) _ _ λ small.
          bind-Defined _ (IsValid w n) (copy_address w m mode) _
            (copy_address-Defined w n v mode (ground arith))
            λ r hr.
              bind-Defined _ (IsValid w n) (remember m r.0 r.1) _
                (remember-Defined w n v r.0 r.1 hr)
                λ m' v'.
                  guard-Defined (IsValid w n) (ltb w.out_cap (add_size (out_pos m') size)) _ _
                    λ fits.
                      bind-Defined _ (IsValid w n) (copy_loop w size r.0 m'.output m'.tgt_written) _
                        (copy_loop-Defined size r.0 m'.output m'.tgt_written v'.placed)
                        λ o ho. record {
                          near = v'.near;
                          next = v'.next;
                          same = v'.same;
                          addrs = v'.addrs;
                          placed = omega (arith, ho, v'.placed);
                          fits = omega (arith, ho, room m' size v' h fits);
                          insts = v'.insts;
                        }

    execute_add-Defined :
        (m : Machine) (size : ℕ)
        → IsValid w n m
        → size < 2 ^ 63
        → Defined (IsValid w n) (execute_add w m size)
    unfolding execute_add
    execute_add-Defined m size v h =
        guard-Defined (IsValid w n) (ltb (length m.data_cur) size) _ _ λ enough.
          guard-Defined (IsValid w n) (ltb w.out_cap (add_size (out_pos m) size)) _ _ λ fits.
            let grown : length (m.output ++ take size m.data_cur) ≡ length m.output + size =
              ground (
                arith,
                length-append m.output (take size m.data_cur),
                length-take size m.data_cur,
              ) in
            record {
              near = v.near;
              next = v.next;
              same = v.same;
              addrs = v.addrs;
              placed = omega (arith, grown, v.placed);
              fits = omega (arith, grown, room m size v h fits);
              insts = v.insts;
            }

    execute_run-Defined :
        (m : Machine) (bytes : List ℕ) (size : ℕ)
        → IsValid w n m
        → size < 2 ^ 63
        → Defined (IsValid w n) (execute_run w m bytes size)
    unfolding execute_run
    execute_run-Defined m [] size v h = tt
    execute_run-Defined m (b ∷ rest) size v h =
        guard-Defined (IsValid w n) (ltb w.out_cap (add_size (out_pos m) size)) _ _ λ fits.
          let grown : length (m.output ++ replicate size b) ≡ length m.output + size =
            omega (arith, length-append m.output (replicate size b), length-replicate size b) in
          record {
            near = v.near;
            next = v.next;
            same = v.same;
            addrs = v.addrs;
            placed = omega (arith, grown, v.placed);
            fits = omega (arith, grown, room m size v h fits);
            insts = v.insts;
          }

    inst_size-Defined :
        (m : Machine) (isize : ℕ)
        → IsValid w n m
        → isize < 2 ^ 63
        → Defined (λ r. (r.0 < 2 ^ 63) × IsValid w n r.1) (inst_size m isize)
    unfolding inst_size
    inst_size-Defined m isize v h = elim (Bool-cases (isize == 0)) [
      | inl z ↦ rw z (
          bind-Defined _ _ (varint m.inst_cur) _ (varint-Defined m.inst_cur) λ r b. (
            b.0,
            record {
              near = v.near;
              next = v.next;
              same = v.same;
              addrs = v.addrs;
              placed = v.placed;
              fits = v.fits;
              insts = omega (arith, b.1, v.insts);
            },
          ))
      | inr nz ↦ rw nz (h, v)
    ]

    execute-Defined :
        (m : Machine) (i : Inst) (isize imode : ℕ)
        → IsValid w n m
        → isize < 2 ^ 63
        → Defined (IsValid w n) (execute w m i isize imode)
    unfolding execute
    execute-Defined m noop isize imode v h = v
    execute-Defined m add isize imode v h =
        bind-Defined _ (IsValid w n) (inst_size m isize) _ (inst_size-Defined m isize v h)
          λ r d. execute_add-Defined r.1 r.0 d.1 d.0
    execute-Defined m run isize imode v h =
        bind-Defined _ (IsValid w n) (inst_size m isize) _ (inst_size-Defined m isize v h)
          λ r d. execute_run-Defined r.1 (r.1).data_cur r.0 d.1 d.0
    execute-Defined m copy isize imode v h =
        bind-Defined _ (IsValid w n) (inst_size m isize) _ (inst_size-Defined m isize v h)
          λ r d. execute_copy-Defined r.1 imode r.0 d.1 d.0

  with_insts :
      (n : ℕ) (m : Machine) (rest : List ℕ)
      → IsValid w n m
      → IsValid w (length rest) (record m { inst_cur = rest })
  with_insts n m rest v = record {
    near = v.near;
    next = v.next;
    same = v.same;
    addrs = v.addrs;
    placed = v.placed;
    fits = v.fits;
    insts = omega arith;
  }

  module _ (cap : IsCapacity w) where
    run_from-Defined :
        (fuel n : ℕ) (m : Machine) (insts : List ℕ)
        → length insts ≤ fuel
        → IsValid w n m
        → Defined
            (λ m'.
              (length m'.output ≡ w.window_tgt_start + m'.tgt_written)
              × (length m'.output ≤ w.out_cap))
            (run_from fuel w m insts)
    unfolding run_from
    run_from-Defined fuel n m [] h v = (v.placed, v.fits)
    run_from-Defined zero n m (opcode ∷ rest) h v = absurd (omega arith)
    run_from-Defined (suc fuel) n m (opcode ∷ rest) h v =
        let k = length rest in
        let small = code_table_small opcode in
        let m₀ : Machine = record m { inst_cur = rest } in
        bind-Defined (IsValid w k) _ (execute_entry w m₀ (code_table opcode)) _
          (unfold execute_entry in
            bind-Defined (IsValid w k) (IsValid w k)
              (execute w m₀ (code_table opcode).t1 (code_table opcode).s1 (code_table opcode).m1) _
              (execute-Defined cap k m₀ _ _ _ (with_insts n m rest v) (omega (arith, small)))
              λ m₁ v₁. execute-Defined cap k m₁ _ _ _ v₁ (omega (arith, small)))
          λ m' v'. run_from-Defined fuel k m' m'.inst_cur (omega (arith, v'.insts)) v'

    -- From a valid state the instructions of a window are defined: no byte is written past the capacity
    -- of the output, no cache, section or segment is read outside, and the loop ends.
    pub run_window-Defined :
        (m : Machine)
        → IsValid w (length m.inst_cur) m
        → Defined
            (λ m'.
              (length m'.output ≡ w.window_tgt_start + m'.tgt_written)
              × (length m'.output ≤ w.out_cap))
            (run_window w m)
    unfolding run_window
    run_window-Defined m v =
        run_from-Defined (length m.inst_cur) (length m.inst_cur) m m.inst_cur (omega arith) v
