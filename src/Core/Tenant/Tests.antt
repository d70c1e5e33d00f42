-- ===== src/Core/Tenant/Tests.antt =====
-- Ids of a number and of a name.
use riftgate.Base.{◌≡◌, refl, codes}
use riftgate.Core.Tenant.{tenant_id_from_str}

number_id : tenant_id_from_str (codes "0042") ≡ 42
unfolding tenant_id_from_str
number_id = refl

-- FNV-1a of one letter.
letter_id : tenant_id_from_str (codes "a") ≡ 3826002220
unfolding tenant_id_from_str
letter_id = refl
