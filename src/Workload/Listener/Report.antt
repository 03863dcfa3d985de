-- ===== src/Workload/Listener/Report.antt =====
-- The loss figures at the end of listener.py, from the sequence numbers in order of arrival.
pub mod Agreement
use time_sensitive_packet.Base.{
  ℕ, zero, suc, ◌+◌, ◌-◌, Bool, true, false, List, [], ◌∷◌, length, ltb, if◌then◌else◌, nat_eq,
  dedup,
}
use time_sensitive_packet.Base.Int.{ℤ, pos, negsuc, ◌-ℤ◌, ltb_ℤ}

-- `max(seqs)`, from a first one.
abbrev pub max_of : ℕ → List ℕ → ℕ
max_of m [] = m
max_of m (x ∷ xs) = max_of (if ltb m x then x else m) xs

-- The loop that counts reordered packets.
unfoldable pub reorder_loop : ℤ → ℕ → List ℕ → ℕ
reorder_loop max_seen reorders [] = reorders
reorder_loop max_seen reorders (s ∷ seqs) =
    let late = ltb_ℤ (pos s) max_seen in
    reorder_loop (if late then max_seen else pos s) (if late then suc reorders else reorders) seqs

pub record Figures : Type 0 where
  pub unique : ℕ
  pub expected : ℕ
  pub loss : ℤ
  pub dups : ℤ
  pub reorders : ℕ

-- Of `results` with a first row.
unfoldable pub figures : ℕ → List ℕ → Figures
unfolding reorder_loop
figures x xs =
    let unique = length (dedup (x ∷ xs)) in
    let expected = suc (max_of x xs) in
    record {
      unique = unique;
      expected = expected;
      loss = pos expected -ℤ pos unique;
      dups = pos (length (x ∷ xs)) -ℤ pos unique;
      reorders = reorder_loop (negsuc 0) 0 (x ∷ xs);
    }
