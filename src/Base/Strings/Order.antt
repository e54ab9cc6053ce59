-- ===== src/Base/Strings/Order.antt =====
-- The order of texts is total.
use mathlib.Core.Path.{◌≡◌, refl}
use mathlib.Core.Bool.{true, false}
use mathlib.Core.List.{[], ◌∷◌}
use native.Mathlib.Omega.{arith}
use devops_agent_msk_mcp.Base.Sort.{IsTotalOrder}
use devops_agent_msk_mcp.Base.Strings.{Text, text_leb}

pub text_leb_total : (s t : Text) → text_leb s t ≡ false → text_leb t s ≡ true
unfolding text_leb
text_leb_total [] t h = ground arith
text_leb_total (c ∷ s) [] h = refl
text_leb_total (c ∷ s) (d ∷ t) h = ground (arith, text_leb_total s t)

pub text_leb_trans :
    (r s t : Text) → text_leb r s ≡ true → text_leb s t ≡ true → text_leb r t ≡ true
unfolding text_leb
text_leb_trans [] s t h k = refl
text_leb_trans (c ∷ r) [] t h k = ground arith
text_leb_trans (c ∷ r) (d ∷ s) [] h k = ground arith
text_leb_trans (c ∷ r) (d ∷ s) (e ∷ t) h k = ground (arith, text_leb_trans r s t)

pub text_leb_antisymm : (s t : Text) → text_leb s t ≡ true → text_leb t s ≡ true → s ≡ t
unfolding text_leb
text_leb_antisymm [] [] h k = refl
text_leb_antisymm [] (d ∷ t) h k = ground arith
text_leb_antisymm (c ∷ s) [] h k = ground arith
text_leb_antisymm (c ∷ s) (d ∷ t) h k = ground (arith, text_leb_antisymm s t)

pub text_leb-IsTotalOrder : IsTotalOrder text_leb
text_leb-IsTotalOrder = record { total = text_leb_total; trans = text_leb_trans }
