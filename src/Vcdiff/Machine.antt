-- ===== src/Vcdiff/Machine.antt =====
-- The instructions of ably-c/src/delta/vcdiff.c: `execute_copy`, and the loop of
-- `ably_vcdiff_decode` over the instructions of one window.
-- A cursor with its end (`data_cur`, `inst_cur`, `addr_cur`) is the list of the bytes between them.
-- The output buffer is the list of the bytes written so far; `out_pos` is its length.
use ably_connectors.Prelude.{
  ℕ, zero, suc, ◌+◌, ◌-◌, ◌*◌, ◌%◌, ◌^◌, Bool, true, false, List, [], ◌∷◌, ◌++◌, length, get_elem?,
  set, take, drop, replicate, ltb, leb, ◌==◌, if◌then◌else◌,
}
use ably_connectors.Vcdiff.Types.{
  Result, ok, err, undefined, stuck, truncated, invalid, output_full, bad_opcode, ◌>>=◌, ◌>>◌,
  in_bounds,
}
use ably_connectors.Vcdiff.Varint.{varint}
use ably_connectors.Vcdiff.Table.{
  Inst, noop, add, run, copy, s_near, s_same, num_modes, CodeEntry, code_table,
}

-- The variables that the instructions of one window change.
pub record Machine : Type 0 where
  pub data_cur : List ℕ
  pub inst_cur : List ℕ
  pub addr_cur : List ℕ
  pub near_cache : List ℕ
  pub near_next : ℕ
  pub same_cache : List ℕ
  pub output : List ℕ
  pub tgt_written : ℕ

-- What they read: the source segment, the capacity of the output, and where the window's target
-- begins in it.
pub record Window : Type 0 where
  pub seg : List ℕ
  pub out_cap : ℕ
  pub window_tgt_start : ℕ

-- `size_t` and `uint32_t` arithmetic.
abbrev pub add_size : ℕ → ℕ → ℕ
add_size a b = (a + b) % 2 ^ 64

abbrev pub u32 : ℕ → ℕ
u32 n = n % 2 ^ 32

abbrev pub out_pos : Machine → ℕ
out_pos m = length m.output

-- `if (cond) return error;`
abbrev pub fail_if : Bool → Result (Unit {0}) → Result (Unit {0})
fail_if true r = r
fail_if false r = ok tt

-- The address computed from a varint of the address section.
abbrev pub from_varint : List ℕ → (ℕ → Result ℕ) → Result (ℕ × List ℕ)
from_varint addrs f = do (a, rest) ← varint addrs; addr ← f a; ok (addr, rest)

-- The address looked up by one byte of the address section.
abbrev pub from_byte : List ℕ → (ℕ → Result ℕ) → Result (ℕ × List ℕ)
from_byte [] f = err truncated
from_byte (byte ∷ rest) f = do addr ← f byte; ok (addr, rest)

-- VCD_SELF, VCD_HERE and NEAR: the address that a varint `a` stands for.
abbrev pub self_address : ℕ → Result ℕ
self_address a = ok (u32 a)

abbrev pub here_address : Window → Machine → ℕ → Result ℕ
here_address w m a = ok (u32 (u32 (length w.seg + m.tgt_written) + 2 ^ 32 - u32 a))

abbrev pub near_address : Machine → ℕ → ℕ → Result ℕ
near_address m mode a = do
  near ← in_bounds (get_elem? m.near_cache (mode - 2))
  ok (u32 (near + u32 a))

-- SAME: the address that a byte stands for.
abbrev pub same_address : Machine → ℕ → ℕ → Result ℕ
same_address m mode byte = in_bounds (get_elem? m.same_cache ((mode - (2 + s_near)) * 256 + byte))

-- The address of a COPY in each mode, and the address bytes left.
unfoldable pub copy_address : Window → Machine → ℕ → Result (ℕ × List ℕ)
copy_address w m mode =
    if mode == 0
    then from_varint m.addr_cur self_address
    else if mode == 1
    then from_varint m.addr_cur (here_address w m)
    else if ltb mode (2 + s_near)
    then from_varint m.addr_cur (near_address m mode)
    else from_byte m.addr_cur (same_address m mode)

-- A write to one of the two address caches.
abbrev pub store : List ℕ → ℕ → ℕ → Result (List ℕ)
store cache i addr = if ltb i (length cache) then ok (set cache i addr) else undefined

-- "Update address cache".
unfoldable pub remember : Machine → ℕ → List ℕ → Result Machine
remember m addr rest = do
  near ← store m.near_cache m.near_next addr
  same ← store m.same_cache (addr % (s_same * 256)) addr
  ok (record m {
    addr_cur = rest;
    near_cache = near;
    near_next = (m.near_next + 1) % s_near;
    same_cache = same;
  })

-- The byte at `combined` in the source segment followed by the window's target.
unfoldable pub combined_byte : Window → List ℕ → ℕ → ℕ → Result ℕ
combined_byte w output tgt_written combined =
    if ltb combined (length w.seg)
    then in_bounds (get_elem? w.seg combined)
    else if leb tgt_written (combined - length w.seg)
    then err invalid
    else in_bounds (get_elem? output (w.window_tgt_start + (combined - length w.seg)))

-- The copying loop with `n` bytes left.
unfoldable pub copy_loop : Window → ℕ → ℕ → List ℕ → ℕ → Result (List ℕ × ℕ)
copy_loop w zero combined output tgt_written = ok (output, tgt_written)
copy_loop w (suc n) combined output tgt_written = do
  b ← combined_byte w output tgt_written combined
  copy_loop w n (combined + 1) (output ++ (b ∷ [])) (tgt_written + 1)

unfoldable pub execute_copy : Window → Machine → ℕ → ℕ → Result Machine
execute_copy w m mode size = do
  fail_if (leb num_modes mode) (err bad_opcode)
  (addr, rest) ← copy_address w m mode
  m' ← remember m addr rest
  fail_if (ltb w.out_cap (add_size (out_pos m') size)) (err output_full)
  (output, tgt_written) ← copy_loop w size addr m'.output m'.tgt_written
  ok (record m' { output = output; tgt_written = tgt_written })

-- ADD: `size` bytes of the data section.
unfoldable pub execute_add : Window → Machine → ℕ → Result Machine
execute_add w m size = do
  fail_if (ltb (length m.data_cur) size) (err invalid)
  fail_if (ltb w.out_cap (add_size (out_pos m) size)) (err output_full)
  ok (record m {
    data_cur = drop size m.data_cur;
    output = m.output ++ take size m.data_cur;
    tgt_written = m.tgt_written + size;
  })

-- RUN: one byte of the data section, `size` times.
unfoldable pub execute_run : Window → Machine → List ℕ → ℕ → Result Machine
execute_run w m [] size = err invalid
execute_run w m (run_byte ∷ rest) size = do
  fail_if (ltb w.out_cap (add_size (out_pos m) size)) (err output_full)
  ok (record m {
    data_cur = rest;
    output = m.output ++ replicate size run_byte;
    tgt_written = m.tgt_written + size;
  })

-- The size of an instruction: from the table, or a varint of the instruction section.
unfoldable pub inst_size : Machine → ℕ → Result (ℕ × Machine)
inst_size m isize =
    if isize == 0
    then varint m.inst_cur >>= (λ r. ok (r.0, record m { inst_cur = r.1 }))
    else ok (isize, m)

-- One of the two passes over a table entry.
unfoldable pub execute : Window → Machine → Inst → ℕ → ℕ → Result Machine
execute w m noop isize imode = ok m
execute w m add isize imode = do (size, m') ← inst_size m isize; execute_add w m' size
execute w m run isize imode = do (size, m') ← inst_size m isize; execute_run w m' m'.data_cur size
execute w m copy isize imode = do (size, m') ← inst_size m isize; execute_copy w m' imode size

unfoldable pub execute_entry : Window → Machine → CodeEntry → Result Machine
execute_entry w m ce = do m' ← execute w m ce.t1 ce.s1 ce.m1; execute w m' ce.t2 ce.s2 ce.m2

-- The loop over the instruction section. Every round takes its opcode, so the bytes left are fuel
-- enough.
unfoldable pub run_from : ℕ → Window → Machine → List ℕ → Result Machine
run_from fuel w m [] = ok m
run_from zero w m (opcode ∷ rest) = stuck
run_from (suc fuel) w m (opcode ∷ rest) = do
  m' ← execute_entry w (record m { inst_cur = rest }) (code_table opcode)
  run_from fuel w m' m'.inst_cur

unfoldable pub run_window : Window → Machine → Result Machine
run_window w m = run_from (length m.inst_cur) w m m.inst_cur
