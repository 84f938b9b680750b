-- ===== src/Vcdiff/Runs.antt =====
-- The decoder on concrete deltas.
use ably_connectors.Prelude.{ℕ, ◌≡◌, ◌≤◌, refl, arith, true, false, some, List, [], ◌∷◌, length}
use ably_connectors.Base64.{codes}
use ably_connectors.Vcdiff.Types.{ok, stuck}
use ably_connectors.Vcdiff.Varint.{read_varint, read_from}
use ably_connectors.Vcdiff.Table.{code_table, build_code_table, each}
use ably_connectors.Vcdiff.Rfc.{rfc_table, agree, code_table-rfc}
use ably_connectors.Vcdiff.Machine.{
  Window, Machine, copy_address, remember, combined_byte, copy_loop, execute_copy, execute_add,
  inst_size, execute, execute_entry, run_from, run_window,
}
use ably_connectors.Vcdiff.Window.{
  segment, sections, decode_body, decode_window, windows, decode_with, decode, start,
}
use ably_connectors.Vcdiff.Sections.{decode-ends}

-- TV2 of ably-c/tests/test_delta.c: "hello" becomes "hello world".
abbrev pub hello_world : List ℕ
hello_world =
    0xD6 ∷ 0xC3 ∷ 0xC4 ∷ 0x00 ∷ 0x00 ∷ 0x01 ∷ 0x05 ∷ 0x00 ∷ 0x0E ∷ 0x0B ∷ 0x00 ∷ 0x06 ∷ 0x02 ∷ 0x01
    ∷ 0x20 ∷ 0x77 ∷ 0x6F ∷ 0x72 ∷ 0x6C ∷ 0x64 ∷ 0x15 ∷ 0x07 ∷ 0x00 ∷ []

pub decode-hello_world : decode 32767 (some (codes "hello")) hello_world ≡ ok (codes "hello world")
unfolding decode decode_with windows decode_window segment decode_body sections run_window run_from
    execute_entry execute inst_size execute_add execute_copy copy_address remember copy_loop
    combined_byte read_varint read_from code_table build_code_table each
decode-hello_world = refl

code_table-rfc_example :
    (agree 0x12 ≡ true → code_table 0x12 ≡ rfc_table 0x12)
    × (agree 0x12 ≡ false → ¬ (code_table 0x12 ≡ rfc_table 0x12))
code_table-rfc_example = code_table-rfc 0x12 (omega arith)

-- A window that copies the segment and adds six bytes.
abbrev hello : Window
hello = record { seg = codes "hello"; out_cap = 64; window_tgt_start = 0 }

abbrev hello_start : Machine
hello_start = start [] (codes " world") (0x15 ∷ 0x07 ∷ []) (0x00 ∷ [])

decode-ends_example :
    ¬ (decode 64 (some (codes "hello")) hello_world ≡ stuck)
    × ((out : List ℕ) → decode 64 (some (codes "hello")) hello_world ≡ ok out → length out ≤ 64)
decode-ends_example = decode-ends 64 (some (codes "hello")) hello_world (omega arith) (omega arith)
