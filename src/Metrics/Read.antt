-- ===== src/Metrics/Read.antt =====
-- What a gauge of controllers/egressipam/egressipam_controller.go shows behind a `Set`
use egressip_ipam_operator.Prelude.{
  ℕ, ◌≡◌, ◌≢◌, ap, ◌∙◌, Option, none, some, [], Text, text_eq, if◌then◌else◌,
}
use egressip_ipam_operator.Go.Maps.{Map, get, put, get_or_zero, get-put, get-put_self, get-put_ne}
use egressip_ipam_operator.Metrics.{Gauge, set}

abbrev pub read : Gauge → Text → Text → Option ℕ
read gauge name node = get (get_or_zero [] gauge name) node

abbrev or_none : Option (Map ℕ) → Map ℕ
or_none o = elim o [ none ↦ [] | some m ↦ m ]

pub read-set :
    (gauge : Gauge) (name node node' : Text) (value : ℕ)
    → read (set gauge name node value) name node'
      ≡ (if text_eq node node' then some value else read gauge name node')
unfolding set
read-set gauge name node node' value =
    ap (λ (o : Option (Map ℕ)). get (or_none o) node')
      (get-put_self gauge name (put (get_or_zero [] gauge name) node value))
    ∙ get-put (get_or_zero [] gauge name) node node' value

pub read-set_other :
    (gauge : Gauge) (name name' node node' : Text) (value : ℕ)
    → name ≢ name'
    → read (set gauge name node value) name' node' ≡ read gauge name' node'
unfolding set
read-set_other gauge name name' node node' value apart =
    ap (λ (o : Option (Map ℕ)). get (or_none o) node')
      (get-put_ne gauge name name' (put (get_or_zero [] gauge name) node value) apart)
