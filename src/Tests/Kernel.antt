-- ===== src/Tests/Kernel.antt =====
-- Helpers of the kernel that do what they document, and always succeed in range.
use time_sensitive_packet.Base.{
  ℕ, ◌+◌, ◌-◌, ◌*◌, ◌/◌, ◌%◌, ◌≤◌, ◌≡◌, sym, none, some, List, [], ◌∷◌, length, take, drop, leb,
  if◌then◌else◌, arith,
}
use time_sensitive_packet.Bytes.{le_value}
use time_sensitive_packet.Classifier.Mark.{Kernel, KernelLaws, overwrite}

abbrev new_check : List ℕ → ℕ → ℕ → ℕ → ℕ
new_check bytes off from to =
    (le_value (take 2 (drop off bytes)) + from + (65535 - to % 65535)) % 65535

abbrev pub plain_kernel : Kernel
plain_kernel = record {
  load_bytes = λ bytes off len.
      if leb (off + len) (length bytes) then some (take len (drop off bytes)) else none;
  l3_csum_replace = λ bytes off from to.
      let c = new_check bytes off from to in some (overwrite bytes off (c % 256 ∷ c / 256 ∷ []));
  store_bytes = λ bytes off vs. some (overwrite bytes off vs);
}

check_congruent :
    (v from to : ℕ)
    → let c = (v + from + (65535 - to % 65535)) % 65535 in
      (c % 256 + 256 * (c / 256) + to) % 65535 ≡ (v + from) % 65535
check_congruent v from to = omega arith

some-injective : {A : Type 0} {a b : A} → some a ≡ some b → a ≡ b
some-injective h = cc

load_in_range :
    (bytes : List ℕ) (off len : ℕ)
    → off + len ≤ length bytes
    → plain_kernel.load_bytes bytes off len ≡ some (take len (drop off bytes))
load_in_range bytes off len h = ground arith

pub plain_kernel_laws : KernelLaws plain_kernel
plain_kernel_laws = record {
  load_bytes_lem = load_in_range;
  store_bytes_lem = λ bytes off vs after h. sym (some-injective h);
  l3_csum_replace_lem = λ bytes off from to after h.
      let c = new_check bytes off from to in
      (
        c % 256,
        c / 256,
        omega arith,
        omega arith,
        sym (some-injective h),
        check_congruent (le_value (take 2 (drop off bytes))) from to,
      );
}
