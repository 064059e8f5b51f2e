-- ===== src/Server/TransferOut/TimeLocks.antt =====
-- The time lock of the transfer in: eight hours before that of the transfer out.
use c_bridge_node.Base.{ℕ, ◌+◌, ◌-◌, ◌*◌, ◌/◌, ◌^◌, ◌≤◌, ◌<◌, ◌≡◌, ap, ◌∙◌, false, arith}
use c_bridge_node.Base.Int.{ℤ, pos, ◌+ℤ◌, ◌-ℤ◌, ◌*ℤ◌, ◌≤ℤ◌, ltb_ℤ, from_bits, int64, int_laws}
use c_bridge_node.Transfer.{unix, second}
use c_bridge_node.Server.TransferOut.{timeout_of, chain2_time_lock}

int64-le : (k : ℕ) → int64 (pos k) ≤ℤ pos k
unfolding int64
int64-le k = ground arith

int64_small : (k : ℕ) → k < 2 ^ 63 → int64 (pos k) ≡ pos k
unfolding int64
int64_small k h = ground arith

-- The time lock of an accepted transfer out is really that far ahead, also where the arithmetic
-- in int64 wraps.
timeout_of_accepted :
    (timelock n : ℕ)
    → timelock < 2 ^ 64
    → n / second < 2 ^ 62
    → ltb_ℤ (timeout_of timelock (pos n)) (pos 57600) ≡ false
    → (n / second + 57600 ≤ timelock)
      × (timelock < n / second + 2 ^ 63)
      × (timeout_of timelock (pos n) ≡ pos (timelock - n / second))
unfolding timeout_of int64 from_bits ◌-ℤ◌
timeout_of_accepted timelock n small now_small h = (ground arith, ground arith, ground arith)

-- What is added in nanoseconds shows in whole seconds.
unix-add-le : (n q : ℕ) (x : ℤ) → x ≤ℤ pos (q * second) → unix (pos n +ℤ x) ≤ℤ pos (n / second + q)
unfolding ◌+ℤ◌
unix-add-le n q x h = ground arith

unix-add : (n q : ℕ) → unix (pos n +ℤ pos (q * second)) ≡ pos (n / second + q)
unfolding ◌+ℤ◌
unix-add n q = ground arith

pos-sub : (m k : ℕ) → k ≤ m → pos m -ℤ pos k ≡ pos (m - k)
unfolding ◌-ℤ◌
pos-sub m k h = ground arith

pos-mul : (m k : ℕ) → pos m *ℤ pos k ≡ pos (m * k)
unfolding ◌*ℤ◌
pos-mul m k = ground arith

-- Eight hours less, and then in nanoseconds, which may wrap to something smaller.
chain2_time_lock_lem :
    (n m : ℕ)
    → 28800 ≤ m
    → m < 2 ^ 63
    → chain2_time_lock (pos n) (pos m) ≡ pos n +ℤ int64 (pos ((m - 28800) * second))
unfolding chain2_time_lock
chain2_time_lock_lem n m h small =
    rw (pos-sub m 28800 h, int64_small (m - 28800) (omega arith), pos-mul (m - 28800) second)

-- Whatever time lock a user chose, the transfer in that is planned for it runs out at least eight
-- hours before the transfer out does.
pub chain2_time_lock-before :
    (timelock n : ℕ)
    → timelock < 2 ^ 64
    → n / second < 2 ^ 62
    → ltb_ℤ (timeout_of timelock (pos n)) (pos 57600) ≡ false
    → unix (chain2_time_lock (pos n) (timeout_of timelock (pos n))) +ℤ pos 28800 ≤ℤ pos timelock
chain2_time_lock-before timelock n small now_small h =
    let (ahead, near, e) = timeout_of_accepted timelock n small now_small h in
    let m = timelock - n / second in
    rw (e, chain2_time_lock_lem n m (omega arith) (omega arith))
      (omega (
        int_laws,
        unix-add-le n (m - 28800) (int64 (pos ((m - 28800) * second)))
            (int64-le ((m - 28800) * second)),
      ))

timeout_of_near :
    (timelock n : ℕ)
    → n / second + 57600 ≤ timelock
    → timelock < n / second + 9223372036
    → n / second < 2 ^ 62
    → timeout_of timelock (pos n) ≡ pos (timelock - n / second)
unfolding timeout_of int64 from_bits ◌-ℤ◌
timeout_of_near timelock n ahead near now_small = ground arith

-- Up to 292 years ahead it is exactly eight hours, in whole seconds.
pub chain2_time_lock_exact :
    (timelock n : ℕ)
    → n / second + 57600 ≤ timelock
    → timelock < n / second + 9223372036
    → n / second < 2 ^ 62
    → unix (chain2_time_lock (pos n) (timeout_of timelock (pos n))) ≡ pos (timelock - 28800)
chain2_time_lock_exact timelock n ahead near now_small =
    let m = timelock - n / second in
    rw
      (
        timeout_of_near timelock n ahead near now_small,
        chain2_time_lock_lem n m (omega arith) (omega arith),
        int64_small ((m - 28800) * second) (omega arith),
      )
      (unix-add n (m - 28800) ∙ ap pos (omega arith))
