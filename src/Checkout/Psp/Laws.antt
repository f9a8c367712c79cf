-- ===== src/Checkout/Psp/Laws.antt =====
-- Charges and refunds under one key.
use arena_onsale.Prelude.{◌≡◌, true, some, if◌then◌else◌, arith, ap, ==_iff}
use arena_onsale.Tables.{PspKey, pay, refund_of, key_eq, PspRef}
use arena_onsale.Checkout.Psp.{MockPsp, lookup, charge, refund}

pub key_eq_refl : (k : PspKey) → key_eq k k ≡ true
key_eq_refl (pay i) = ground arith
key_eq_refl (refund_of k) = key_eq_refl k

pub key_eq→≡ : (k l : PspKey) → key_eq k l ≡ true → k ≡ l
key_eq→≡ (pay i) (pay j) e = ap pay ((==_iff i j).0 e)
key_eq→≡ (pay i) (refund_of l) e = cc
key_eq→≡ (refund_of k) (pay j) e = cc
key_eq→≡ (refund_of k) (refund_of l) e = ap refund_of (key_eq→≡ k l e)

-- A charge answers by the stored result of its key, stores the result that it answers, and leaves the
-- results of all other keys.
pub charge_lem :
    (k j : PspKey) (p : MockPsp)
    → let (r, p') = charge k p in
      (lookup k p'.charges ≡ some r)
      × (lookup j p'.charges ≡ (if key_eq k j then some r else lookup j p.charges))
      × (p'.refunds ≡ p.refunds)
unfolding charge
charge_lem k j p = ground (arith, key_eq_refl k, key_eq→≡ k j)

pub refund_lem :
    (ref : PspRef) (k j : PspKey) (p : MockPsp)
    → let (r, p') = refund ref k p in
      (lookup k p'.refunds ≡ some r)
      × (lookup j p'.refunds ≡ (if key_eq k j then some r else lookup j p.refunds))
      × (p'.charges ≡ p.charges)
unfolding refund
refund_lem ref k j p = ground (arith, key_eq_refl k, key_eq→≡ k j)

-- Charging a key again answers as before and changes nothing: there is no second capture.
pub charge-charge :
    (k : PspKey) (p : MockPsp) → charge k (charge k p).1 ≡ ((charge k p).0, (charge k p).1)
unfolding charge
charge-charge k p = ground (arith, key_eq_refl k)

pub refund-refund :
    (ref : PspRef) (k : PspKey) (p : MockPsp)
    → refund ref k (refund ref k p).1 ≡ ((refund ref k p).0, (refund ref k p).1)
unfolding refund
refund-refund ref k p = ground (arith, key_eq_refl k)
