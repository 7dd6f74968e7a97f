-- ===== src/Crud/Inversions.antt =====
-- What holds of a step that returned.
use metap.Prelude.{true, ◌≡◌, ap, arith}
use metap.Permission.Context.{PermissionDecision}
use metap.Permission.Service
use metap.Crud.Store.{done, done-injective, of_service, permit, permit_fields}

pub permit-done : (d : PermissionDecision) {u : Unit {0}} → permit d ≡ done u → d.allowed ≡ true
permit-done d h = ground arith

pub permit_fields-done :
    (d : PermissionDecision) {u : Unit {0}} → permit_fields d ≡ done u → d.allowed ≡ true
permit_fields-done d h = ground arith

pub of_service-done {ℓ} :
    {A : Type ℓ} (r : Service.Result A) {a : A} → of_service r ≡ done a → r ≡ Service.ok a
of_service-done (Service.ok a) h = ap Service.ok (done-injective h)
of_service-done (Service.err e) h = cc
