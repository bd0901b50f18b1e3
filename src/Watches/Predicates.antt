-- ===== src/Watches/Predicates.antt =====
-- The predicates on update events in SetupWithManager of
-- controllers/egressipam/egressipam_controller.go. An object is given by the fields that its predicate
-- reads, or `none` where the event's object has another type. A slice or a map is `none` where it is nil,
-- which DeepEqual tells apart from an empty one.
use egressip_ipam_operator.Prelude.{
  Bool, true, false, not, ◌&&◌, ◌||◌, Option, none, some, List, [], ◌∷◌, Text, text_eq, codes,
}
use egressip_ipam_operator.Go.Maps.{Map, keys, get}
use egressip_ipam_operator.Go.Reflect.{same_texts}
use egressip_ipam_operator.Api.{NodeCondition}
use egressip_ipam_operator.Nodes.{is_condition}

pub record NodeView : Type 0 where
  pub annotations : Option (Map Text)
  pub conditions : List NodeCondition

pub record HostSubnetView : Type 0 where
  pub egress_cidrs : Option (List Text)
  pub egress_ips : Option (List Text)

-- `reflect.DeepEqual` of two slices of one type
abbrev pub equal_slices : Option (List Text) → Option (List Text) → Bool
equal_slices none none = true
equal_slices (some s) (some t) = same_texts s t
equal_slices _ _ = false

abbrev pub same_at : Option Text → Option Text → Bool
same_at none none = true
same_at (some s) (some t) = text_eq s t
same_at _ _ = false

unfoldable pub agree : List Text → Map Text → Map Text → Bool
agree [] m n = true
agree (k ∷ ks) m n = same_at (get m k) (get n k) && agree ks m n

-- `reflect.DeepEqual` of two maps: the same keys with the same values
abbrev pub equal_maps : Option (Map Text) → Option (Map Text) → Bool
equal_maps none none = true
equal_maps (some m) (some n) = agree (keys m) m n && agree (keys n) m n
equal_maps _ _ = false

abbrev pub readiness : List NodeCondition → Bool
readiness conditions = is_condition conditions (codes "Ready") (codes "True")

-- `oldReadiness != newReadiness`
abbrev pub unequal : Bool → Bool → Bool
unequal true b = not b
unequal false b = b

-- IsCreatedOrDeletedOrReadinessChanged
unfoldable pub is_readiness_changed : Option NodeView → Option NodeView → Bool
unfolding agree is_condition
is_readiness_changed (some old) (some new) =
    not (equal_maps old.annotations new.annotations)
    || unequal (readiness old.conditions) (readiness new.conditions)
is_readiness_changed _ _ = false

-- IsCreatedORDeletedOrIsEgressCIDRsChanged
unfoldable pub is_egress_cidrs_changed : Option HostSubnetView → Option HostSubnetView → Bool
is_egress_cidrs_changed (some old) (some new) =
    not (equal_slices old.egress_cidrs new.egress_cidrs)
    || not (equal_slices old.egress_ips new.egress_ips)
is_egress_cidrs_changed _ _ = false

-- IsCreatedOrIsEgressIPsChanged, at the addresses of netnamespaces
unfoldable pub is_egress_ips_changed :
    Option (Option (List Text)) → Option (Option (List Text)) → Bool
is_egress_ips_changed (some old) (some new) = not (equal_slices old new)
is_egress_ips_changed _ _ = false
