-- ===== src/Capacity/Validity.antt =====
-- Which pools `Pool.Validate` accepts, and how a charge and a refund keep them acceptable.
use leo_runners.Base.{◌≡◌, refl, none, Bool, true, false, ◌&&◌, ◌||◌, arith, ◌<◌, ◌^◌}
use leo_runners.Base.Int.{
  ℤ, pos, negsuc, eqb_ℤ, ltb_ℤ, ◌≤ℤ◌, ◌+ℤ◌, ◌-ℤ◌, pos_part, add64, sub64, wrap,
}
use leo_runners.Capacity.Pool.{Capacity, Pool, Floats}
use leo_runners.Capacity.Validation.{
  validate, any_negative, values_of, over_limit, exceeds, negative_int, Within, IsWithin,
  checks-IsWithin, or_false,
}
use leo_runners.Capacity.Registry.{fits, charge, refund, lacks, with_capacity, any_negative_amount}
use leo_runners.Capacity.Usage.{Sums, add64-Within, sub64-Within, sub64-add64}

-- The usage of a pool, and the sums with the amounts, within 64 bits.
pub record Fits64 (c : Capacity) (asked_cpu asked_memory asked_gpu : ℤ) : Type 0 where
  pub runners : Sums c.used_runners (pos 1)
  pub cpu : Sums c.used_cpu asked_cpu
  pub memory : Sums c.used_memory_gb asked_memory
  pub gpu : Sums c.used_gpu asked_gpu

pub record Amounts (asked_cpu asked_memory asked_gpu : ℤ) : Type 0 where
  pub cpu : pos 0 ≤ℤ asked_cpu
  pub memory : pos 0 ≤ℤ asked_memory
  pub gpu : pos 0 ≤ℤ asked_gpu

pub guard-Amounts :
    (cpu memory gpu : ℤ) → any_negative_amount cpu memory gpu ≡ false → Amounts cpu memory gpu
guard-Amounts cpu memory gpu h = record {
  cpu = ground arith;
  memory = ground arith;
  gpu = ground arith;
}

runners-Within :
    (max used : ℤ)
    → Within max used
    → Sums used (pos 1)
    → (eqb_ℤ max (pos 0) || ltb_ℤ used max) ≡ true
    → Within max (add64 used (pos 1))
unfolding add64
runners-Within max used w sums room = ground arith

and_true : (a b : Bool) → (a && b) ≡ true → (a ≡ true) × (b ≡ true)
and_true a b h = (ground arith, ground arith)

pub charge-IsWithin :
    (c : Capacity) (cpu memory gpu : ℤ)
    → IsWithin c
    → Amounts cpu memory gpu
    → Fits64 c cpu memory gpu
    → fits c cpu memory gpu ≡ true
    → IsWithin (charge c cpu memory gpu)
unfolding fits charge
charge-IsWithin c cpu memory gpu w a s h =
    let (h1, h2) = and_true _ _ h in
    let (h3, h4) = and_true _ _ h1 in
    let (h5, h6) = and_true _ _ h3 in
    record {
      runners = runners-Within _ _ w.runners s.runners h5;
      cpu = add64-Within _ _ _ w.cpu a.cpu s.cpu h6;
      memory = add64-Within _ _ _ w.memory a.memory s.memory h4;
      gpu = add64-Within _ _ _ w.gpu a.gpu s.gpu h2;
    }

-- The usage itself fits in 64 bits.
pub record Is64 (c : Capacity) : Type 0 where
  pub runners : pos_part c.used_runners < 2 ^ 63
  pub cpu : pos_part c.used_cpu < 2 ^ 63
  pub memory : pos_part c.used_memory_gb < 2 ^ 63
  pub gpu : pos_part c.used_gpu < 2 ^ 63

pub refund-IsWithin :
    (c : Capacity) (cpu memory gpu : ℤ)
    → IsWithin c
    → Amounts cpu memory gpu
    → Is64 c
    → lacks c cpu memory gpu ≡ false
    → IsWithin (refund c cpu memory gpu)
unfolding lacks refund
refund-IsWithin c cpu memory gpu w a s h =
    let (h1, h2) = or_false _ _ h in
    let (h3, h4) = or_false _ _ h1 in
    let (h5, h6) = or_false _ _ h3 in
    record {
      runners = sub64-Within _ _ (pos 1) w.runners (omega arith) (omega (arith, s.runners)) h5;
      cpu = sub64-Within _ _ _ w.cpu a.cpu (omega (arith, s.cpu)) h6;
      memory = sub64-Within _ _ _ w.memory a.memory (omega (arith, s.memory)) h4;
      gpu = sub64-Within _ _ _ w.gpu a.gpu (omega (arith, s.gpu)) h2;
    }

add64-Is64 : (a b : ℤ) → pos_part (add64 a b) < 2 ^ 63
unfolding add64 wrap
add64-Is64 a b = elim (a +ℤ b) [ pos n ↦ ground arith | negsuc n ↦ ground arith ]

sub64-Is64 : (a b : ℤ) → pos_part (sub64 a b) < 2 ^ 63
unfolding sub64 wrap
sub64-Is64 a b = elim (a -ℤ b) [ pos n ↦ ground arith | negsuc n ↦ ground arith ]

pub charge-Is64 : (c : Capacity) (cpu memory gpu : ℤ) → Is64 (charge c cpu memory gpu)
unfolding charge
charge-Is64 c cpu memory gpu = record {
  runners = add64-Is64 _ _;
  cpu = add64-Is64 _ _;
  memory = add64-Is64 _ _;
  gpu = add64-Is64 _ _;
}

pub refund-Is64 : (c : Capacity) (cpu memory gpu : ℤ) → Is64 (refund c cpu memory gpu)
unfolding refund
refund-Is64 c cpu memory gpu = record {
  runners = sub64-Is64 _ _;
  cpu = sub64-Is64 _ _;
  memory = sub64-Is64 _ _;
  gpu = sub64-Is64 _ _;
}

-- Taking back what was given restores the usage.
pub refund-charge :
    (c : Capacity) (cpu memory gpu : ℤ)
    → IsWithin c
    → Amounts cpu memory gpu
    → Fits64 c cpu memory gpu
    → refund (charge c cpu memory gpu) cpu memory gpu ≡ c
unfolding refund charge
refund-charge c cpu memory gpu w a s =
    rw
      (
        sub64-add64 c.used_runners (pos 1) w.runners.usage (omega arith) s.runners,
        sub64-add64 c.used_cpu cpu w.cpu.usage a.cpu s.cpu,
        sub64-add64 c.used_memory_gb memory w.memory.usage a.memory s.memory,
        sub64-add64 c.used_gpu gpu w.gpu.usage a.gpu s.gpu,
      )
      refl

enough :
    (used amount : ℤ)
    → pos 0 ≤ℤ used
    → pos 0 ≤ℤ amount
    → Sums used amount
    → ltb_ℤ (add64 used amount) amount ≡ false
unfolding add64
enough used amount a b s = ground arith

pub lacks-charge :
    (c : Capacity) (cpu memory gpu : ℤ)
    → IsWithin c
    → Amounts cpu memory gpu
    → Fits64 c cpu memory gpu
    → lacks (charge c cpu memory gpu) cpu memory gpu ≡ false
unfolding lacks charge
lacks-charge c cpu memory gpu w a s =
    rw
      (
        enough c.used_runners (pos 1) w.runners.usage (omega arith) s.runners,
        enough c.used_cpu cpu w.cpu.usage a.cpu s.cpu,
        enough c.used_memory_gb memory w.memory.usage a.memory s.memory,
        enough c.used_gpu gpu w.gpu.usage a.gpu s.gpu,
      )
      refl

not_negative : (v : ℤ) → pos 0 ≤ℤ v → negative_int v ≡ false
not_negative v h = ground arith

not_exceeds : (max used : ℤ) → Within max used → exceeds max used ≡ false
not_exceeds max used w = ground arith

IsWithin-any_negative : (c : Capacity) → IsWithin c → any_negative (values_of c) ≡ false
unfolding any_negative values_of
IsWithin-any_negative c w =
    rw
      (
        not_negative _ w.runners.limit,
        not_negative _ w.cpu.limit,
        not_negative _ w.memory.limit,
        not_negative _ w.gpu.limit,
        not_negative _ w.runners.usage,
        not_negative _ w.cpu.usage,
        not_negative _ w.memory.usage,
        not_negative _ w.gpu.usage,
      )
      refl

IsWithin-over_limit : (c : Capacity) → IsWithin c → over_limit c ≡ false
unfolding over_limit
IsWithin-over_limit c w =
    rw
      (
        not_exceeds _ _ w.runners,
        not_exceeds _ _ w.cpu,
        not_exceeds _ _ w.memory,
        not_exceeds _ _ w.gpu,
      )
      refl

module _ (floats : Floats) where
  open floats use {Float}

  pub validate-IsWithin : (p : Pool Float) → validate floats p ≡ none → IsWithin p.capacity
  unfolding validate
  validate-IsWithin p h = checks-IsWithin p.capacity (ground arith) (ground arith)

  pub validate-with_capacity :
      (p : Pool Float) (c : Capacity)
      → validate floats p ≡ none
      → IsWithin c
      → validate floats (with_capacity p c) ≡ none
  unfolding validate
  validate-with_capacity p c h w =
      ground (arith, IsWithin-any_negative c w, IsWithin-over_limit c w)
