-- ===== src/Pipe/Forward.antt =====
-- src/pipe/forward.c: the forwarding of values that are not yet in the register file.
pub mod Newest
use ch_arm_v5_system_emulato.Base.{ℕ, Bool, ◌&&◌, not, ◌==◌, if◌then◌else◌}

-- The parameters of `forward_reg` that are not of one source alone.
pub record Pending : Type 0 where
  pub x_dst : ℕ
  pub m_dst : ℕ
  pub w_dst : ℕ
  pub x_val_ex : ℕ
  pub m_val_ex : ℕ
  pub m_val_mem : ℕ
  pub w_val_ex : ℕ
  pub w_val_mem : ℕ
  pub m_wval_sel : Bool
  pub w_wval_sel : Bool
  pub x_w_enable : Bool
  pub m_w_enable : Bool
  pub w_w_enable : Bool

-- The chain of tests that the function writes twice, for `*val_a` and for `*val_b`; `val` is the
-- value before.
unfoldable pub forward_one : Pending → ℕ → ℕ → ℕ
forward_one p src val =
    if p.x_w_enable && p.x_dst == src && not (p.x_dst == 0x1F)
    then p.x_val_ex
    else if p.m_w_enable && p.m_dst == src && not (p.m_dst == 0x1F)
    then (if p.m_wval_sel then p.m_val_mem else p.m_val_ex)
    else if p.w_w_enable && p.w_dst == src && not (p.w_dst == 0x1F)
    then (if p.w_wval_sel then p.w_val_mem else p.w_val_ex)
    else val

-- `forward_reg`: the new `*val_a` and `*val_b`.
unfoldable pub forward_reg : Pending → ℕ → ℕ → ℕ → ℕ → ℕ × ℕ
unfolding forward_one
forward_reg p d_src1 d_src2 val_a val_b = (forward_one p d_src1 val_a, forward_one p d_src2 val_b)
