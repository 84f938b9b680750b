-- ===== src/Vcdiff/Window.antt =====
-- `ably_vcdiff_decode` of ably-c/src/delta/vcdiff.c: the file header and the windows.
use ably_connectors.Prelude.{
  ℕ, zero, suc, ◌+◌, ◌*◌, ◌^◌, ◌%◌, bit_and, Bool, true, false, not, ◌&&◌, Option, none, some, List,
  [], ◌∷◌, length, take, drop, replicate, ltb, leb, ◌==◌, if◌then◌else◌,
}
use ably_connectors.Vcdiff.Types.{
  Result, ok, err, undefined, stuck, invalid_magic, secondary_comp, custom_table, truncated,
  invalid, output_full, ◌>>=◌, ◌>>◌,
}
use ably_connectors.Vcdiff.Varint.{varint}
use ably_connectors.Vcdiff.Table.{s_near, s_same}
use ably_connectors.Vcdiff.Machine.{Machine, add_size, fail_if, run_window}

-- `flags & bit`, as a condition.
abbrev pub has : ℕ → ℕ → Bool
has flags bit = not (bit_and flags bit == 0)

abbrev pub win_source : ℕ
win_source = 0x01

abbrev pub win_target : ℕ
win_target = 0x02

abbrev pub win_checksum : ℕ
win_checksum = 0x04

-- The bytes that a window's `slen` and `spos` point at. `source` is `none` for NULL. What
-- VCD_TARGET points at stands before `out_pos` and is not written again, so a copy of it will do.
abbrev pub slice : List ℕ → ℕ → ℕ → Result (List ℕ)
slice bytes spos slen =
    if ltb (length bytes) (add_size spos slen)
    then err invalid
    else ok (take slen (drop spos bytes))

abbrev pub locate : Option (List ℕ) → List ℕ → Bool → ℕ → ℕ → Result (List ℕ)
locate none output true spos slen = err invalid
locate (some source) output true spos slen = slice source spos slen
locate source output false spos slen = slice output spos slen

-- The source segment, and the bytes left.
unfoldable pub segment : Option (List ℕ) → List ℕ → ℕ → List ℕ → Result (List ℕ × List ℕ)
segment source output win_ind p =
    if has win_ind 0x03
    then (varint p >>= λ s. varint s.1 >>= λ o.
        locate source output (has win_ind win_source) o.0 s.0 >>= λ seg. ok (seg, o.1))
    else ok ([], p)

-- The four bytes of an Adler-32 behind the window.
abbrev pub skip_checksum : ℕ → List ℕ → Result (List ℕ)
skip_checksum win_ind p =
    if has win_ind win_checksum
    then if ltb (length p) 4 then err truncated else ok (drop 4 p)
    else ok p

-- The data, instruction and address sections of what is left of the window. The sum of the lengths
-- wraps; sections that leave the window are undefined behaviour.
unfoldable pub sections : List ℕ → ℕ → ℕ → ℕ → Result (List ℕ × List ℕ × List ℕ)
sections w data_len inst_len addr_len =
    if ltb (length w) ((data_len + inst_len + addr_len) % 2 ^ 64)
    then err truncated
    else if leb (data_len + inst_len + addr_len) (length w)
    then ok (
      take data_len w,
      take inst_len (drop data_len w),
      take addr_len (drop inst_len (drop data_len w)),
    )
    else undefined

-- The address cache as each window starts with it.
abbrev pub start : List ℕ → List ℕ → List ℕ → List ℕ → Machine
start output adds insts addrs = record {
  data_cur = adds;
  inst_cur = insts;
  addr_cur = addrs;
  near_cache = replicate s_near 0;
  near_next = 0;
  same_cache = replicate (s_same * 256) 0;
  output = output;
  tgt_written = 0;
}

abbrev pub take_byte : List ℕ → Result (ℕ × List ℕ)
take_byte [] = err truncated
take_byte (b ∷ rest) = ok (b, rest)

module _ (split : List ℕ → ℕ → ℕ → ℕ → Result (List ℕ × List ℕ × List ℕ)) (out_cap : ℕ) where
  -- The delta encoding `w` of one window, over the segment `seg`: the output after it.
  unfoldable pub decode_body : List ℕ → List ℕ → List ℕ → Result (List ℕ)
  decode_body seg output w = varint w >>= λ target. take_byte target.1 >>= λ delta_ind.
      fail_if (has delta_ind.0 0x07) (err secondary_comp)
      >> (varint delta_ind.1 >>= λ data_len. varint data_len.1 >>= λ inst_len.
          varint inst_len.1 >>= λ addr_len.
          split addr_len.1 data_len.0 inst_len.0 addr_len.0 >>= λ parts.
          fail_if (ltb out_cap (add_size (length output) target.0)) (err output_full)
          >> (run_window (record { seg = seg; out_cap = out_cap; window_tgt_start = length output })
                (start output parts.0 parts.1 parts.2)
              >>= λ m. fail_if (not (m.tgt_written == target.0)) (err invalid) >> ok m.output))

  -- One round of the window loop: the output after it, and the bytes left.
  unfoldable pub decode_window : Option (List ℕ) → List ℕ → ℕ → List ℕ → Result (List ℕ × List ℕ)
  decode_window source output win_ind p = segment source output win_ind p >>= λ s.
      varint s.1 >>= λ wlen.
      fail_if (ltb (length wlen.1) wlen.0) (err truncated)
      >> (skip_checksum win_ind (drop wlen.0 wlen.1) >>= λ rest.
          decode_body s.0 output (take wlen.0 wlen.1) >>= λ output'. ok (output', rest))

  -- The window loop. Every round takes its indicator, so the bytes left are fuel enough.
  unfoldable pub windows : ℕ → Option (List ℕ) → List ℕ → List ℕ → Result (List ℕ)
  windows fuel source output [] = ok output
  windows zero source output (win_ind ∷ p) = stuck
  windows (suc fuel) source output (win_ind ∷ p) =
      decode_window source output win_ind p >>= λ r. windows fuel source r.0 r.1

  -- The file header: the magic, and the indicator.
  unfoldable pub decode_with : Option (List ℕ) → List ℕ → Result (List ℕ)
  decode_with source (a ∷ b ∷ c ∷ d ∷ hdr_flags ∷ p) =
      if a == 0xD6 && b == 0xC3 && c == 0xC4 && d == 0x00
      then if has hdr_flags 0x01
        then err secondary_comp
        else if has hdr_flags 0x02
        then err custom_table
        else windows (length p) source [] p
      else err invalid_magic
  decode_with source _ = err truncated

-- `ably_vcdiff_decode` with a delta and an output that are not NULL: the bytes written.
unfoldable pub decode : ℕ → Option (List ℕ) → List ℕ → Result (List ℕ)
decode out_cap source delta = decode_with sections out_cap source delta
