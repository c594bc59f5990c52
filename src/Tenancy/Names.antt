-- ===== src/Tenancy/Names.antt =====
-- The names of tenants: `isDNSLabel` of internal/tenancy/manager.go against the validator of
-- internal/rbac.
use Prim.Native.Char.{Char, code}
use Prim.Native.String.{len}
use roost_keeper.Prelude.{◌≡◌, ◌||◌, ◌==◌, String, true, false, refl, arith}
use Prim.Native.String.len.{cons as len-cons}
use text.Mathlib.TextPositions.{len_utf8-pos}
use roost_keeper.Rbac.{is_valid_kubernetes_name, matches_name, is_alphanumeric, ends_well}
use roost_keeper.Tenancy.Manager.{is_dns_label, label_loop, is_label_char}

is_label_char_lem : (c : Char) → is_label_char c ≡ is_alphanumeric c || code c == b'-'
unfolding is_label_char is_alphanumeric
is_label_char_lem c = ground arith

dash-is_alphanumeric : (c : Char) → code c ≡ b'-' → is_alphanumeric c ≡ false
unfolding is_alphanumeric
dash-is_alphanumeric c h = rw h refl

-- no text of at least one character is empty
not_empty : (c : Char) (s : String) → (len (String.◌∷◌ c s) == 0) ≡ false
not_empty c s = ground (arith, len-cons c s, len_utf8-pos c)

-- a name after its first character
label_loop-ends_well : (s : String) → label_loop false s ≡ ends_well s
unfolding label_loop ends_well
label_loop-ends_well String.[] = refl
label_loop-ends_well (String.◌∷◌ c String.[]) =
    ground (arith, is_label_char_lem c, dash-is_alphanumeric c)
label_loop-ends_well (String.◌∷◌ c (String.◌∷◌ d s)) =
    ground (arith, is_label_char_lem c, label_loop-ends_well (String.◌∷◌ d s))

label_loop-matches_name :
    (c : Char) (s : String) → label_loop true (String.◌∷◌ c s) ≡ matches_name (String.◌∷◌ c s)
unfolding label_loop matches_name
label_loop-matches_name c String.[] = ground (arith, is_label_char_lem c, dash-is_alphanumeric c)
label_loop-matches_name c (String.◌∷◌ d s) =
    ground
      (arith, is_label_char_lem c, dash-is_alphanumeric c, label_loop-ends_well (String.◌∷◌ d s))

-- `isDNSLabel` of the tenants and `isValidKubernetesName` of the RBAC validator accept the same
-- texts.
pub is_dns_label-is_valid_kubernetes_name :
    (s : String) → is_dns_label s ≡ is_valid_kubernetes_name s
unfolding is_dns_label is_valid_kubernetes_name
is_dns_label-is_valid_kubernetes_name String.[] = refl
is_dns_label-is_valid_kubernetes_name (String.◌∷◌ c s) =
    rw (not_empty c s, label_loop-matches_name c s) (ground arith)
