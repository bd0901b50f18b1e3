-- ===== src/Tests/Reference.antt =====
-- One value of the parameter of the model, and that it keeps its promises.
use egressip_ipam_operator.Prelude.{
  ℕ, ◌+◌, ◌≡◌, refl, ◌↔◌, Bool, true, false, not, ◌&&◌, List, ◌∷◌, arith, Text, text_eq,
  text_eq_iff, ◌==◌, ==_iff, Elem, Bool-cases, inl, inr, if◌then◌else◌,
}
use egressip_ipam_operator.Deps.{Deps, IsLawful}
use egressip_ipam_operator.Go.Net.{size}
use egressip_ipam_operator.Tests.Sets.{
  member, Elem-of_member, member-of_Elem, not-Elem, keep, Elem-keep, NoDup-keep, dedup, Elem-dedup,
  NoDup-dedup, includes, includes_sound, includes_complete,
}

abbrev nats_eq : ℕ → ℕ → Bool
nats_eq a b = a == b

unfoldable pub difference : List Text → List Text → List Text
unfolding keep dedup member
difference s t =
    keep text_eq text_eq_iff (λ k. not (member text_eq text_eq_iff k t))
      (dedup text_eq text_eq_iff s)

unfoldable pub intersection : List Text → List Text → List Text
unfolding keep dedup member
intersection s t =
    keep text_eq text_eq_iff (λ k. member text_eq text_eq_iff k t) (dedup text_eq text_eq_iff s)

unfoldable pub is_equal : List Text → List Text → Bool
unfolding includes member
is_equal s t = includes text_eq text_eq_iff s t && includes text_eq text_eq_iff t s

unfoldable pub add_finalizer : List Text → Text → List Text
add_finalizer fs f = if member text_eq text_eq_iff f fs then fs else f ∷ fs

unfoldable pub remove_finalizer : List Text → Text → List Text
unfolding keep
remove_finalizer fs f = keep text_eq text_eq_iff (λ g. not (text_eq f g)) fs

abbrev pub reference : Deps
reference = record {
  range = λ ks. ks;
  schedule = λ A xs. xs;
  to_uint32 = λ ip. ip;
  from_uint32 = λ n. n;
  delta_ip = λ ip n. ip + n;
  network_size = λ net. size net;
  str_list = dedup text_eq text_eq_iff;
  difference = difference;
  intersection = intersection;
  is_equal = is_equal;
  u32_list = dedup nats_eq ==_iff;
  has_finalizer = λ fs f. member text_eq text_eq_iff f fs;
  add_finalizer = add_finalizer;
  remove_finalizer = remove_finalizer;
}

Elem-difference : (s t : List Text) (k : Text) → Elem k (difference s t) ↔ (Elem k s × (¬ Elem k t))
unfolding difference
Elem-difference s t k =
    let kept =
      Elem-keep text_eq text_eq_iff (λ k. not (member text_eq text_eq_iff k t)) k
        (dedup text_eq text_eq_iff s) in
    let same = Elem-dedup text_eq text_eq_iff k s in
    (
      λ e. (same.0 (kept.0 e).0, not-Elem text_eq text_eq_iff k t (ground (arith, (kept.0 e).1))),
      λ (e, n). kept.1 (
        same.1 e,
        elim (Bool-cases (member text_eq text_eq_iff k t)) [
          | inl m ↦ absurd (n (Elem-of_member text_eq text_eq_iff k t m))
          | inr m ↦ rw m
        ],
      ),
    )

Elem-intersection : (s t : List Text) (k : Text) → Elem k (intersection s t) ↔ (Elem k s × Elem k t)
unfolding intersection
Elem-intersection s t k =
    let kept =
      Elem-keep text_eq text_eq_iff (λ k. member text_eq text_eq_iff k t) k
        (dedup text_eq text_eq_iff s) in
    let same = Elem-dedup text_eq text_eq_iff k s in
    (
      λ e. (same.0 (kept.0 e).0, Elem-of_member text_eq text_eq_iff k t (kept.0 e).1),
      λ (e, m). kept.1 (same.1 e, member-of_Elem text_eq text_eq_iff k t m),
    )

is_equal_sound : (s t : List Text) → is_equal s t ≡ true → (k : Text) → Elem k s ↔ Elem k t
unfolding is_equal
is_equal_sound s t h k = (
  includes_sound text_eq text_eq_iff s t k (ground arith),
  includes_sound text_eq text_eq_iff t s k (ground arith),
)

is_equal_complete : (s t : List Text) → ((k : Text) → Elem k s ↔ Elem k t) → is_equal s t ≡ true
unfolding is_equal
is_equal_complete s t h = ground (
  arith,
  includes_complete text_eq text_eq_iff s t (λ k. (h k).0),
  includes_complete text_eq text_eq_iff t s (λ k. (h k).1),
)

has-add : (fs : List Text) (f : Text) → member text_eq text_eq_iff f (add_finalizer fs f) ≡ true
unfolding add_finalizer
has-add fs f = elim (Bool-cases (member text_eq text_eq_iff f fs)) [
  | inl old ↦ rw old old
  | inr new ↦ rw new (member-of_Elem text_eq text_eq_iff f (f ∷ fs) (inl refl))
]

has-remove :
    (fs : List Text) (f : Text) → member text_eq text_eq_iff f (remove_finalizer fs f) ≡ false
unfolding remove_finalizer
has-remove fs f = elim (Bool-cases (member text_eq text_eq_iff f (remove_finalizer fs f))) [
  | inl there ↦
      let (_, t) =
        (Elem-keep text_eq text_eq_iff (λ g. not (text_eq f g)) f fs).0
          (Elem-of_member text_eq text_eq_iff f (remove_finalizer fs f) there) in
      ground (arith, t, text_eq_iff f f)
  | inr gone ↦ gone
]

pub reference-IsLawful : IsLawful reference
reference-IsLawful = record {
  range_elem = λ ks k. (λ e. e, λ e. e);
  range_nodup = λ ks h. h;
  schedule_elem = λ A xs x. (λ e. e, λ e. e);
  to_uint32_eq = λ ip h. refl;
  from_uint32_eq = λ n h. refl;
  delta_ip_eq = λ ip n h. refl;
  network_size_eq = λ net lo hi. refl;
  str_list_elem = λ s k. Elem-dedup text_eq text_eq_iff k s;
  str_list_nodup = NoDup-dedup text_eq text_eq_iff;
  difference_elem = Elem-difference;
  difference_nodup = λ s t.
      unfold difference in NoDup-keep text_eq text_eq_iff _ _ (NoDup-dedup text_eq text_eq_iff s);
  intersection_elem = Elem-intersection;
  intersection_nodup = λ s t.
      unfold intersection in NoDup-keep text_eq text_eq_iff _ _ (NoDup-dedup text_eq text_eq_iff s);
  is_equal_iff = λ s t. (is_equal_sound s t, is_equal_complete s t);
  u32_list_elem = λ s n. Elem-dedup nats_eq ==_iff n s;
  u32_list_nodup = NoDup-dedup nats_eq ==_iff;
  has-add_finalizer = has-add;
  has-remove_finalizer = has-remove;
}
