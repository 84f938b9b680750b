-- ===== src/Vcdiff/Table.antt =====
-- `build_code_table` of ably-c/src/delta/vcdiff.c: the table of instructions that opcodes
-- stand for.
use ably_connectors.Prelude.{
  ℕ, zero, suc, ◌+◌, ◌-◌, ◌/◌, ◌%◌, ◌<◌, ◌≡◌, refl, arith, Bool, true, false, ◌&&◌, List, [], ◌∷◌,
  ◌++◌, length, get_or, ltb, ◌==◌, if◌then◌else◌,
}
use ably_connectors.Prelude.Tables.{holds_below, holds_below_sound}

-- INST_NOOP, INST_ADD, INST_RUN and INST_COPY.
pub data Inst : Type 0 where
  noop add run copy : Inst

-- `code_entry_t`: two instructions, each with its type, size and mode.
pub record CodeEntry : Type 0 where
  pub t1 : Inst
  pub s1 : ℕ
  pub m1 : ℕ
  pub t2 : Inst
  pub s2 : ℕ
  pub m2 : ℕ

abbrev pub entry : Inst → ℕ → ℕ → Inst → ℕ → ℕ → CodeEntry
entry t1 s1 m1 t2 s2 m2 = record { t1 = t1; s1 = s1; m1 = m1; t2 = t2; s2 = s2; m2 = m2 }

abbrev pub s_near : ℕ
s_near = 4

abbrev pub s_same : ℕ
s_same = 3

abbrev pub num_modes : ℕ
num_modes = 2 + s_near + s_same

-- What `n` rounds of a counting loop from `i` on append.
unfoldable pub each : ℕ → ℕ → (ℕ → List CodeEntry) → List CodeEntry
each zero i body = []
each (suc n) i body = body i ++ each n (i + 1) body

unfoldable pub build_code_table : List CodeEntry
unfolding each
build_code_table =
    (entry noop 0 0 noop 0 0 ∷ [])
    ++ (each 17 0 (λ sz. entry add sz 0 noop 0 0 ∷ [])
        ++ ((entry run 0 0 noop 0 0 ∷ [])
            ++ (each num_modes 0 (λ m.
                  (entry copy 0 m noop 0 0 ∷ []) ++ each 15 4 (λ sz. entry copy sz m noop 0 0 ∷ []))
                ++ (each 4 1 (λ a.
                      each (num_modes - 3) 0 (λ m. each 3 4 (λ sz. entry add a 0 copy sz m ∷ [])))
                    ++ each (num_modes - 4) 0 (λ m. each 4 1 (λ a. entry copy 4 m add a 0 ∷ []))))))

-- `s_code_table[opcode]`; entry 255 keeps its static zeros.
unfoldable pub code_table : ℕ → CodeEntry
code_table opcode = get_or build_code_table opcode (entry noop 0 0 noop 0 0)

-- The layout in the comment above the table, in closed form.
abbrev pub layout : ℕ → CodeEntry
layout i =
    if i == 0
    then entry noop 0 0 noop 0 0
    else if ltb i 18
    then entry add (i - 1) 0 noop 0 0
    else if i == 18
    then entry run 0 0 noop 0 0
    else if ltb i 163
    then entry copy (if (i - 19) % 16 == 0 then 0 else (i - 19) % 16 + 3) ((i - 19) / 16) noop 0 0
    else if ltb i 235
    then entry add ((i - 163) / 18 + 1) 0 copy ((i - 163) % 3 + 4) ((i - 163) / 3 % 6)
    else if ltb i 255
    then entry copy 4 ((i - 235) / 4) add ((i - 235) % 4 + 1) 0
    else entry noop 0 0 noop 0 0

abbrev pub same_inst : Inst → Inst → Bool
same_inst noop noop = true
same_inst add add = true
same_inst run run = true
same_inst copy copy = true
same_inst _ _ = false

abbrev pub same_entry : CodeEntry → CodeEntry → Bool
same_entry a b =
    same_inst a.t1 b.t1
    && a.s1 == b.s1
    && a.m1 == b.m1
    && same_inst a.t2 b.t2
    && a.s2 == b.s2
    && a.m2 == b.m2

same_inst_sound : (a b : Inst) → same_inst a b ≡ true → a ≡ b
same_inst_sound noop noop h = refl
same_inst_sound add add h = refl
same_inst_sound run run h = refl
same_inst_sound copy copy h = refl
same_inst_sound _ _ h = cc

pub same_entry_sound : (a b : CodeEntry) → same_entry a b ≡ true → a ≡ b
same_entry_sound a b h = ground (arith, same_inst_sound a.t1 b.t1, same_inst_sound a.t2 b.t2)

agrees : holds_below 256 (λ i. same_entry (code_table i) (layout i)) ≡ true
unfolding holds_below code_table build_code_table
agrees = refl

-- The assertion `i == 255` at the end of `build_code_table`.
pub length-build_code_table : length build_code_table ≡ 255
unfolding build_code_table
length-build_code_table = refl

-- Every opcode stands for the instructions that the layout in the comment above the table gives it.
pub code_table-layout : (opcode : ℕ) → opcode < 256 → code_table opcode ≡ layout opcode
code_table-layout opcode h =
    same_entry_sound _ _
      (holds_below_sound 256 (λ i. same_entry (code_table i) (layout i)) opcode agrees h)

all_small : List CodeEntry → Bool
all_small [] = true
all_small (e ∷ es) = ltb e.s1 19 && ltb e.s2 19 && all_small es

all_small_sound :
    (es : List CodeEntry) (i : ℕ)
    → all_small es ≡ true
    → ((get_or es i (entry noop 0 0 noop 0 0)).s1 < 19)
      × ((get_or es i (entry noop 0 0 noop 0 0)).s2 < 19)
unfolding all_small
all_small_sound [] i h = omega arith
all_small_sound (e ∷ es) zero h = ground arith
all_small_sound (e ∷ es) (suc i) h = all_small_sound es i (ground arith)

table_small : all_small build_code_table ≡ true
unfolding all_small build_code_table
table_small = refl

-- The sizes in the table are at most 18.
pub code_table_small : (opcode : ℕ) → ((code_table opcode).s1 < 19) × ((code_table opcode).s2 < 19)
unfolding code_table
code_table_small opcode = all_small_sound build_code_table opcode table_small
