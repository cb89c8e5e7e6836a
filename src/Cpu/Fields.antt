-- ===== src/Cpu/Fields.antt =====
-- Every word decodes, and the fields of an instruction are in range.
use os_td_minf.Prelude.{
  ℕ, zero, suc, ◌/◌, ◌%◌, ◌^◌, ◌<◌, ◌≡◌, refl, Bool, true, false, not, ◌&&◌, some, List, [], ◌∷◌,
  arith, length, get_elem?,
}
use os_td_minf.Machine.Bounds.{get_elem?-inside}
use os_td_minf.Cpu.Opcodes.{
  Op, op_rfe, Code, plain, special, bcond, Format, ifmt, jfmt, rfmt, OpInfo, op_table,
  special_table,
}
use os_td_minf.Cpu.Decode.{Instruction, extra_of, bcond_op, final_op, decode}

-- RFE is in no table.
abbrev pub is_rfe : Op → Bool
is_rfe op_rfe = true
is_rfe o = false

abbrev is_code_rfe : Code → Bool
is_code_rfe (plain o) = is_rfe o
is_code_rfe c = false

pub record IsInstruction (i : Instruction) : Type 0 where
  pub rs_bound : i.rs < 32
  pub rt_bound : i.rt < 32
  pub rd_bound : i.rd < 32
  pub extra_bound : i.extra < 2 ^ 32
  pub handled : is_rfe i.op_code ≡ false

abbrev none_has {ℓ} : {A : Type ℓ} → (A → Bool) → List A → Bool
none_has f [] = true
none_has f (x ∷ xs) = not (f x) && none_has f xs

none_has-at {ℓ} :
    {A : Type ℓ} (f : A → Bool) (xs : List A) (i : ℕ) (x : A)
    → none_has f xs ≡ true
    → get_elem? xs i ≡ some x
    → f x ≡ false
none_has-at f [] i x h e = ground arith
none_has-at f (y ∷ xs) zero x h e = ground arith
none_has-at f (y ∷ xs) (suc i) x h e = none_has-at f xs i x (ground arith) e

extra_of-lt : (f : Format) (value : ℕ) → extra_of f value < 2 ^ 32
extra_of-lt ifmt value = ground arith
extra_of-lt rfmt value = omega arith
extra_of-lt jfmt value = omega arith

bcond_op-handled : (value : ℕ) → is_rfe (bcond_op value) ≡ false
bcond_op-handled value = ground arith

special_size : length special_table ≡ 64
unfolding special_table
special_size = refl

special_handled : none_has is_rfe special_table ≡ true
unfolding special_table
special_handled = refl

op_size : length op_table ≡ 64
unfolding op_table
op_size = refl

op_handled : none_has (λ (o : OpInfo). is_code_rfe o.op_code) op_table ≡ true
unfolding op_table
op_handled = refl

final_op-handled :
    (c : Code) (value : ℕ)
    → is_code_rfe c ≡ false
    → (o : Op) × (final_op c value ≡ some o) × (is_rfe o ≡ false)
final_op-handled (plain o) value h = (o, refl, h)
final_op-handled special value h =
    let (o, at) = get_elem?-inside special_table (value % 64) (omega (arith, special_size)) in
    (o, at, none_has-at is_rfe special_table (value % 64) o special_handled at)
final_op-handled bcond value h = (bcond_op value, refl, bcond_op-handled value)

pub decode-IsInstruction :
    (value : ℕ) → (i : Instruction) × (decode value ≡ some i) × IsInstruction i
unfolding decode
decode-IsInstruction value =
    let (info, at) = get_elem?-inside op_table (value / 2 ^ 26 % 64) (omega (arith, op_size)) in
    let clear =
      none_has-at (λ (o : OpInfo). is_code_rfe o.op_code) op_table (value / 2 ^ 26 % 64) info
        op_handled at in
    let (op, op_at, handled) = final_op-handled info.op_code value clear in
    simp (at, op_at)
      (
        _,
        refl,
        record {
          rs_bound = omega arith;
          rt_bound = omega arith;
          rd_bound = omega arith;
          extra_bound = extra_of-lt info.format value;
          handled = handled;
        },
      )
