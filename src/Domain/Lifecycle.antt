-- ===== src/Domain/Lifecycle.antt =====
-- The life of an order, and what `effect_satisfied` means in it.
use stripe_payment_integrati.Prelude.{◌≡◌, refl, ◌↔◌, ◌⊎◌, inl, inr, Bool, true, false, arith}
use stripe_payment_integrati.Domain.{OrderStatus, effect_satisfied}

infix 40 ◌⟶◌ ◌⟶*◌
-- A webhook, or the job that cancels stale orders, moves an order along one of these edges.
pub data ◌⟶◌ : OrderStatus → OrderStatus → Type 0 where
  start_payment : OrderStatus.pending ⟶ OrderStatus.processing
  pay_now : OrderStatus.pending ⟶ OrderStatus.paid
  pay_late : OrderStatus.processing ⟶ OrderStatus.paid
  fail_now : OrderStatus.pending ⟶ OrderStatus.failed
  fail_late : OrderStatus.processing ⟶ OrderStatus.failed
  expire : OrderStatus.pending ⟶ OrderStatus.expired
  cancel : OrderStatus.pending ⟶ OrderStatus.canceled
  refund : OrderStatus.paid ⟶ OrderStatus.refunded

pub data ◌⟶*◌ : OrderStatus → OrderStatus → Type 0 where
  stay : {s : OrderStatus} → s ⟶* s
  move : {s t u : OrderStatus} → s ⟶ t → t ⟶* u → s ⟶* u

pub ruleset edges = (start_payment, pay_now, pay_late, fail_now, fail_late, expire, cancel, refund)

pub ⟶*_trans : {s t u : OrderStatus} → s ⟶* t → t ⟶* u → s ⟶* u
⟶*_trans stay q = q
⟶*_trans (move e p) q = move e (⟶*_trans p q)

pub edge : {s t : OrderStatus} → s ⟶ t → s ⟶* t
edge e = move e stay

-- Money that has arrived: an order that counts as paid, whether or not it was refunded since.
pub data IsSettled : OrderStatus → Type 0 where
  settled_paid : IsSettled OrderStatus.paid
  settled_refunded : IsSettled OrderStatus.refunded

⟶-IsSettled : {s t : OrderStatus} → s ⟶ t → IsSettled s → IsSettled t
⟶-IsSettled refund h = settled_refunded
⟶-IsSettled start_payment h = elim h [ ]
⟶-IsSettled pay_now h = elim h [ ]
⟶-IsSettled pay_late h = elim h [ ]
⟶-IsSettled fail_now h = elim h [ ]
⟶-IsSettled fail_late h = elim h [ ]
⟶-IsSettled expire h = elim h [ ]
⟶-IsSettled cancel h = elim h [ ]

-- No sequence of edges leads from a settled status to one that is not.
pub ⟶*-IsSettled : {s t : OrderStatus} → s ⟶* t → IsSettled s → IsSettled t
⟶*-IsSettled stay h = h
⟶*-IsSettled (move e p) h = ⟶*-IsSettled p (⟶-IsSettled e h)

-- The statuses that a checkout event can ask for.
pub data IsTarget : OrderStatus → Type 0 where
  target_processing : IsTarget OrderStatus.processing
  target_paid : IsTarget OrderStatus.paid
  target_failed : IsTarget OrderStatus.failed
  target_expired : IsTarget OrderStatus.expired

abbrev pub Satisfied : OrderStatus → OrderStatus → Bool → Type 0
Satisfied current target false = (current ≡ target) ⊎ IsSettled current
Satisfied current target true = current ≡ OrderStatus.refunded

Satisfied-sound :
    (c : OrderStatus) {t : OrderStatus} (r : Bool)
    → IsTarget t
    → effect_satisfied c t r ≡ true
    → Satisfied c t r
unfolding effect_satisfied
Satisfied-sound OrderStatus.paid false k h = inr settled_paid
Satisfied-sound OrderStatus.refunded false k h = inr settled_refunded
Satisfied-sound OrderStatus.pending false target_processing h = cc
Satisfied-sound OrderStatus.pending false target_paid h = cc
Satisfied-sound OrderStatus.pending false target_failed h = cc
Satisfied-sound OrderStatus.pending false target_expired h = cc
Satisfied-sound OrderStatus.processing false target_processing h = inl refl
Satisfied-sound OrderStatus.processing false target_paid h = cc
Satisfied-sound OrderStatus.processing false target_failed h = cc
Satisfied-sound OrderStatus.processing false target_expired h = cc
Satisfied-sound OrderStatus.failed false target_processing h = cc
Satisfied-sound OrderStatus.failed false target_paid h = cc
Satisfied-sound OrderStatus.failed false target_failed h = inl refl
Satisfied-sound OrderStatus.failed false target_expired h = cc
Satisfied-sound OrderStatus.expired false target_processing h = cc
Satisfied-sound OrderStatus.expired false target_paid h = cc
Satisfied-sound OrderStatus.expired false target_failed h = cc
Satisfied-sound OrderStatus.expired false target_expired h = inl refl
Satisfied-sound OrderStatus.canceled false target_processing h = cc
Satisfied-sound OrderStatus.canceled false target_paid h = cc
Satisfied-sound OrderStatus.canceled false target_failed h = cc
Satisfied-sound OrderStatus.canceled false target_expired h = cc
Satisfied-sound c true k h = ground arith

Satisfied-complete :
    (c : OrderStatus) {t : OrderStatus} (r : Bool)
    → IsTarget t
    → Satisfied c t r
    → effect_satisfied c t r ≡ true
unfolding effect_satisfied
Satisfied-complete c false target_processing (inl e) = ground arith
Satisfied-complete c false target_paid (inl e) = ground arith
Satisfied-complete c false target_failed (inl e) = ground arith
Satisfied-complete c false target_expired (inl e) = ground arith
Satisfied-complete _ false target_processing (inr settled_paid) = refl
Satisfied-complete _ false target_paid (inr settled_paid) = refl
Satisfied-complete _ false target_failed (inr settled_paid) = refl
Satisfied-complete _ false target_expired (inr settled_paid) = refl
Satisfied-complete _ false target_processing (inr settled_refunded) = refl
Satisfied-complete _ false target_paid (inr settled_refunded) = refl
Satisfied-complete _ false target_failed (inr settled_refunded) = refl
Satisfied-complete _ false target_expired (inr settled_refunded) = refl
Satisfied-complete c true k e = ground arith

-- For a target that a checkout event asks for, an update that matched no row counts as done exactly
-- when the order is at the target already or the money has arrived (paid or refunded); for a refund,
-- exactly when the order is refunded.
pub effect_satisfied_iff :
    (current target : OrderStatus) (refund_only : Bool)
    → IsTarget target
    → (effect_satisfied current target refund_only ≡ true) ↔ Satisfied current target refund_only
effect_satisfied_iff current target refund_only k =
    (Satisfied-sound current refund_only k, Satisfied-complete current refund_only k)
