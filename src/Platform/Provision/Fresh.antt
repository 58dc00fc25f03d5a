-- ===== src/Platform/Provision/Fresh.antt =====
-- platform/lib/provision.ts: free ports, unique columns, and what a rollback removes.
use r2storage.Platform.{Instance, PlatformConfig, delete_instance_row, remove_text}
use r2storage.Platform.Domains.{free_port_from, next_free_port}
use r2storage.Prelude.{
  Bool, Bool-cases, List, Text, [], any, arith, false, inl, inr, refl, some, some_inj, subst, suc,
  text_eq, text_eq_refl, true, zero, ℕ, ◌+◌, ◌-◌, ◌<◌, ◌==◌, ◌||◌, ◌∷◌, ◌≡◌, ◌≤◌,
}

free_port_from-free :
    (fuel p q : ℕ) (is : List Instance)
    → free_port_from fuel p is ≡ some q
    → (any (λ i. i.port == q) is ≡ false) × (p ≤ q) × (q < p + fuel)
unfolding free_port_from
free_port_from-free zero p q is h = absurd (cc h)
free_port_from-free (suc fuel) p q is h = elim (Bool-cases (any (λ i. i.port == p) is)) [
  | inl e ↦
      let (free, low, high) = free_port_from-free fuel (p + 1) q is (rw e at h) in
      (free, omega (arith, low), omega (arith, high))
  | inr e ↦
      let same : p ≡ q = some_inj (rw e at h) in
      (
        subst (λ x. any (λ i. i.port == x) is ≡ false) same e,
        omega (arith, same),
        omega (arith, same),
      )
]

pub next_free_port-free :
    (cfg : PlatformConfig) (q : ℕ) (is : List Instance)
    → next_free_port cfg is ≡ some q
    → (any (λ i. i.port == q) is ≡ false) × (cfg.tenant_port_min ≤ q) × (q ≤ cfg.tenant_port_max)
unfolding next_free_port
next_free_port-free cfg q is h =
    let (free, low, high) =
      free_port_from-free (cfg.tenant_port_max + 1 - cfg.tenant_port_min) cfg.tenant_port_min q is
        h in
    (free, low, omega (arith, low, high))

-- Two rows that repeat a unique value.
abbrev pub clash : Instance → Instance → Bool
clash i new = text_eq i.domain new.domain || i.port == new.port || text_eq i.id new.id

pub clash-id :
    (new : Instance) (is : List Instance)
    → any (λ i. clash i new) is ≡ false
    → any (λ i. text_eq i.id new.id) is ≡ false
clash-id new [] h = refl
clash-id new (i ∷ is) h = elim (Bool-cases (text_eq i.id new.id)) [
  | inl e ↦ let clashes : clash i new ≡ true = rw e (ground arith) in absurd (cc (rw clashes at h))
  | inr e ↦ elim (Bool-cases (clash i new)) [
    | inl e' ↦ absurd (cc (rw e' at h))
    | inr e' ↦ rw e (clash-id new is (rw e' at h))
  ]
]

pub delete_instance_row-absent :
    (id : Text) (is : List Instance)
    → any (λ i. text_eq i.id id) is ≡ false
    → delete_instance_row id is ≡ is
unfolding delete_instance_row
delete_instance_row-absent id [] h = refl
delete_instance_row-absent id (i ∷ is) h = elim (Bool-cases (text_eq i.id id)) [
  | inl e ↦ absurd (cc (rw e at h))
  | inr e ↦ rw (e, delete_instance_row-absent id is (rw e at h)) refl
]

pub remove_text-twice :
    (t : Text) (xs : List Text) → remove_text t (t ∷ remove_text t xs) ≡ remove_text t xs
unfolding remove_text
remove_text-twice t xs = rw (text_eq_refl t) (again xs)
  where
    again : (ys : List Text) → remove_text t (remove_text t ys) ≡ remove_text t ys
    again [] = refl
    again (y ∷ ys) = elim (Bool-cases (text_eq y t)) [
      | inl e ↦ rw e (again ys)
      | inr e ↦ rw (e, e, again ys) refl
    ]
