-- ===== src/VmPool/Begins.antt =====
-- vm_pool.c, `u6a_vm_pool_init`: the counts of a pool that nothing Refers to.
use u6a.Base.{ℕ, ◌≤◌, ◌<◌, ◌+◌, ◌^◌, ◌≡◌, ◌⊎◌, false, [], arith}
use u6a.VmHeap.{StackCtx}
use u6a.VmPool.{Held, vm, pool_init}
use u6a.VmPool.Sums.{sum-zero}
use u6a.VmPool.Owed.{Pins, Sound, field}

abbrev pub no_pins : Pins
no_pins = λ e. false

pub pool_init-Sound :
    (ctx : StackCtx) (held : ℕ → Held) (pool_len ins_len cells grows : ℕ)
    → 2 ≤ ins_len
    → cells ≤ pool_len
    → (cells ≡ 0) ⊎ (1 + grows < 2 ^ 32)
    → Sound (vm ctx (pool_init held pool_len ins_len)) no_pins [] cells grows
unfolding pool_init
pool_init-Sound ctx held pool_len ins_len cells grows places enough fits = record {
  valid = (omega arith, tt);
  enough = omega (arith, enough);
  places = places;
  fits = fits;
  counted = λ e h.
      let none_held = sum-zero (field e (vm ctx (pool_init held pool_len ins_len))) in
      absurd (omega (arith, h, none_held));
  holds = λ e used. absurd (omega (arith, used.0));
}
