-- ===== src/Vcdiff/Rfc.antt =====
-- The table that `build_code_table` of ably-c/src/delta/vcdiff.c builds against the default code
-- table of RFC 3284, section 5.6, which a delta without a custom table is written with.
use ably_connectors.Prelude.{
  ℕ, ◌+◌, ◌-◌, ◌/◌, ◌%◌, ◌<◌, ◌≡◌, refl, ◌∙◌, arith, Bool, true, false, ltb, ◌==◌, if◌then◌else◌,
}
use ably_connectors.Prelude.Tables.{holds_below, holds_below_sound}
use ably_connectors.Vcdiff.Table.{
  Inst, noop, add, run, copy, CodeEntry, entry, build_code_table, code_table, same_inst, same_entry,
  same_entry_sound,
}

-- The table of RFC 3284, section 5.6.
abbrev pub rfc_table : ℕ → CodeEntry
rfc_table i =
    if i == 0
    then entry run 0 0 noop 0 0
    else if ltb i 19
    then entry add (i - 1) 0 noop 0 0
    else if ltb i 163
    then entry copy (if (i - 19) % 16 == 0 then 0 else (i - 19) % 16 + 3) ((i - 19) / 16) noop 0 0
    else if ltb i 235
    then entry add ((i - 163) / 3 % 4 + 1) 0 copy ((i - 163) % 3 + 4) ((i - 163) / 12)
    else if ltb i 247
    then entry add ((i - 235) % 4 + 1) 0 copy 4 ((i - 235) / 4 + 6)
    else entry copy 4 (i - 247) add 1 0

-- The opcodes on which the two tables agree.
abbrev pub agree : ℕ → Bool
agree i =
    if i == 0
    then false
    else if i == 18
    then false
    else if ltb i 166
    then true
    else if i == 232
    then true
    else if i == 233
    then true
    else if i == 234
    then true
    else i == 251

same_inst_complete : (a : Inst) → same_inst a a ≡ true
same_inst_complete noop = refl
same_inst_complete add = refl
same_inst_complete run = refl
same_inst_complete copy = refl

same_entry_complete : (a b : CodeEntry) → a ≡ b → same_entry a b ≡ true
same_entry_complete a b h =
    rw (← h) (ground (arith, same_inst_complete a.t1, same_inst_complete a.t2))

abbrev same_bool : Bool → Bool → Bool
same_bool true b = b
same_bool false true = false
same_bool false false = true

same_bool_sound : (a b : Bool) → same_bool a b ≡ true → a ≡ b
same_bool_sound true true h = refl
same_bool_sound true false h = cc
same_bool_sound false true h = cc
same_bool_sound false false h = refl

compared :
    holds_below 256 (λ i. same_bool (same_entry (code_table i) (rfc_table i)) (agree i)) ≡ true
unfolding holds_below code_table build_code_table
compared = refl

-- On the opcodes 1 to 17, 19 to 165, 232 to 234 and 251 the table has the instructions of the default
-- code table of RFC 3284; on every other opcode it has other instructions.
pub code_table-rfc :
    (opcode : ℕ)
    → opcode < 256
    → (agree opcode ≡ true → code_table opcode ≡ rfc_table opcode)
      × (agree opcode ≡ false → ¬ (code_table opcode ≡ rfc_table opcode))
code_table-rfc opcode h =
    let same : same_entry (code_table opcode) (rfc_table opcode) ≡ agree opcode =
      same_bool_sound _ _ (
        holds_below_sound 256 (λ i. same_bool (same_entry (code_table i) (rfc_table i)) (agree i))
          opcode compared h) in
    (
      (λ yes. same_entry_sound _ _ (same ∙ yes)),
      (λ other e. let t = same_entry_complete _ _ e in cc (same, other, t)),
    )
