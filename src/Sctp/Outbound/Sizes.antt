-- ===== src/Sctp/Outbound/Sizes.antt =====
-- How `sendMessage` of transport/sctp/SctpAssociationImpl.cpp divides a message.
use native.Mathlib.Nat.{div-add-mod, mod-lt, mul-le-mul_right, mul-suc, mul_comm}
use symphony_media_bridge.Common.{
  ℕ, zero, suc, ◌+◌, ◌-◌, ◌*◌, ◌/◌, ◌%◌, ◌≤◌, ◌<◌, ◌≡◌, ltb, min, arith, Bool-cases, inl, inr,
}
use symphony_media_bridge.Sctp.Outbound.{packet_count, payload_size}

-- So many chunks of the size suffice, and the last one is not empty.
pub record IsDivided (size count part : ℕ) : Type 0 where
  pub some_chunks : 1 ≤ count
  pub some_bytes : 1 ≤ part
  pub enough : size ≤ part * count
  pub not_more : part * (count - 1) < size

times_pred : (p n : ℕ) → 1 ≤ n → p * n ≡ p * (n - 1) + p
times_pred p zero le = absurd (omega (arith, le))
times_pred p (suc n) le = let e : suc n - 1 ≡ n = omega arith in rw e (mul-suc p n)

positive : (p count left n : ℕ) → 1 ≤ p → p * count + left ≡ n → left < p → p ≤ n → 1 ≤ count
positive p zero left n some_mtu whole rest le = absurd (omega (arith, whole, rest, le))
positive p (suc count) left n some_mtu whole rest le = omega arith

many_chunks :
    (size payload_mtu : ℕ)
    → 1 ≤ payload_mtu
    → payload_mtu < size
    → let count = (size + payload_mtu - 1) / payload_mtu in
      IsDivided size count (min (1 + size / count) payload_mtu)
many_chunks size p some_mtu large =
    let n = size + p - 1 in
    let count = n / p in
    let q = size / count in
    let whole = div-add-mod n p in
    let left = mod-lt n {m = p} (omega (arith, some_mtu)) in
    let some_count : 1 ≤ count =
      positive p count (n % p) n some_mtu whole left (omega (arith, large)) in
    let before : p * count ≡ p * (count - 1) + p = times_pred p count some_count in
    let covered : size ≤ p * count = omega (arith, whole, left) in
    let inside : p * (count - 1) < size = omega (arith, before, whole, large) in
    let parts = div-add-mod size count in
    let rest = mod-lt size {m = count} some_count in
    let part = min (1 + q) p in
    let enough : size ≤ part * count = elim (Bool-cases (ltb (1 + q) p)) [
      | inl fewer ↦
          let e : part ≡ 1 + q = ground (arith, fewer) in
          let product : (1 + q) * count ≡ count * q + count =
            omega (arith, mul_comm (1 + q) count, mul-suc count q) in
          rw e (omega (arith, product, parts, rest))
      | inr more ↦ let e : part ≡ p = ground (arith, more) in rw e covered
    ] in
    let low : part * (count - 1) ≤ p * (count - 1) = mul-le-mul_right (count - 1) (omega arith) in
    record {
      some_chunks = some_count;
      some_bytes = omega (arith, some_mtu);
      enough = enough;
      not_more = omega (arith, low, inside);
    }

-- The sizes that `sendMessage` chooses divide the message into chunks that fit.
pub payload_size-IsDivided :
    (size payload_mtu : ℕ)
    → 1 ≤ payload_mtu
    → 1 ≤ size
    → IsDivided size (packet_count size payload_mtu) (payload_size size payload_mtu)
      × (payload_size size payload_mtu ≤ payload_mtu)
unfolding packet_count payload_size
payload_size-IsDivided size p some_mtu some_size = elim (Bool-cases (ltb p size)) [
  | inl large ↦ rw large (many_chunks size p some_mtu (ground (arith, large)), omega arith)
  | inr small ↦
      let e : size / 1 ≡ size = omega arith in
      let le : size ≤ p = ground (arith, small) in
      rw (small, e)
        (
          record {
            some_chunks = omega arith;
            some_bytes = omega (arith, some_mtu);
            enough = omega (arith, le);
            not_more = omega (arith, some_size);
          },
          omega arith,
        )
]
