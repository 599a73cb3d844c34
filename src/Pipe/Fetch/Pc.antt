-- ===== src/Pipe/Fetch/Pc.antt =====
-- Where src/pipe/instr_Fetch.c goes next: branch targets and corrections.
use ch_arm_v5_system_emulato.Base.{
  ℕ, ◌+◌, ◌-◌, ◌*◌, ◌/◌, ◌%◌, ◌^◌, ◌<◌, ltb, if◌then◌else◌, u64, add64, ◌≡◌, refl, ap, arith, ◌<<<◌,
  ◌==◌, ◌||◌,
}
use ch_arm_v5_system_emulato.Isa.{Opcode, op_b, op_bl, op_b_cond, op_cbz, op_cbnz, ◌is◌}
use ch_arm_v5_system_emulato.Isa.Bitfield.{bitfield_s64}
use ch_arm_v5_system_emulato.Pipe.Fetch.{predict_pc}

-- `pc` plus four times a two's-complement number of `half + half` values, on `uint64_t`.
abbrev pub branch_target : ℕ → ℕ → ℕ → ℕ
branch_target pc half imm =
    if ltb imm half then (pc + 4 * imm) % 2 ^ 64 else (pc + 4 * imm + 2 ^ 64 - 8 * half) % 2 ^ 64

offset26 :
    (pc insnbits : ℕ)
    → insnbits < 2 ^ 32
    → add64 pc (u64 (bitfield_s64 insnbits 0 26 <<< 2))
      ≡ branch_target pc (2 ^ 25) (insnbits % 2 ^ 26)
unfolding bitfield_s64
offset26 pc insnbits h = ground arith

offset19 :
    (pc insnbits : ℕ)
    → insnbits < 2 ^ 32
    → add64 pc (u64 (bitfield_s64 insnbits 5 19 <<< 2))
      ≡ branch_target pc (2 ^ 18) (insnbits / 2 ^ 5 % 2 ^ 19)
unfolding bitfield_s64
offset19 pc insnbits h = ground arith

-- The target that the architecture gives to an instruction that is taken to branch: 26 bits of
-- offset for B and BL, 19 for B.cond, CBZ and CBNZ, and the next instruction for the others.
abbrev pub target_of : ℕ → ℕ → Opcode → ℕ
target_of pc insnbits op_b = branch_target pc (2 ^ 25) (insnbits % 2 ^ 26)
target_of pc insnbits op_bl = branch_target pc (2 ^ 25) (insnbits % 2 ^ 26)
target_of pc insnbits op_b_cond = branch_target pc (2 ^ 18) (insnbits / 2 ^ 5 % 2 ^ 19)
target_of pc insnbits op_cbz = branch_target pc (2 ^ 18) (insnbits / 2 ^ 5 % 2 ^ 19)
target_of pc insnbits op_cbnz = branch_target pc (2 ^ 18) (insnbits / 2 ^ 5 % 2 ^ 19)
target_of pc insnbits _ = add64 pc 4

-- What is predicted at a PC other than 0.
taken :
    (pc insnbits : ℕ) (op : Opcode)
    → insnbits < 2 ^ 32
    → let next = add64 pc 4 in
      let branch : ℕ × ℕ =
        if op is op_b || op is op_bl
        then (add64 pc (u64 (bitfield_s64 insnbits 0 26 <<< 2)), next)
        else if op is op_b_cond
        then (add64 pc (u64 (bitfield_s64 insnbits 5 19 <<< 2)), next)
        else if op is op_cbz || op is op_cbnz
        then (add64 pc (u64 (bitfield_s64 insnbits 5 19 <<< 2)), next)
        else (next, next) in
      branch ≡ (target_of pc insnbits op, next)
taken pc insnbits op_b h = rw (offset26 pc insnbits h)
taken pc insnbits op_bl h = rw (offset26 pc insnbits h)
taken pc insnbits op_b_cond h = rw (offset19 pc insnbits h)
taken pc insnbits op_cbz h = rw (offset19 pc insnbits h)
taken pc insnbits op_cbnz h = rw (offset19 pc insnbits h)
taken pc insnbits _ h = refl

-- For a 32-bit instruction predict_PC changes nothing at PC 0. At every other PC it predicts B,
-- BL, B.cond, CBZ and CBNZ as taken to the PC plus the sign-extended word offset, every other
-- instruction at its successor, and gives the PC plus four as the sequential successor.
pub predict_pc-target_of :
    (pc insnbits : ℕ) (op : Opcode) (predicted_pc seq_succ : ℕ)
    → insnbits < 2 ^ 32
    → predict_pc pc insnbits op predicted_pc seq_succ
      ≡ (if pc == 0 then (predicted_pc, seq_succ) else (target_of pc insnbits op, add64 pc 4))
unfolding predict_pc
predict_pc-target_of pc insnbits op predicted_pc seq_succ h =
    ap (λ t. if pc == 0 then (predicted_pc, seq_succ) else t) (taken pc insnbits op h)
