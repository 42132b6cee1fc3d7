-- ===== src/Service/Backend/Keyed.antt =====
-- Lists of backends with one entry for each host, and the set of hosts that such a list stands for.
use mathlib.Core.Path.{subst}
use cluster_api_provider_ucl.Prelude.{
  ◌≡◌, refl, ap, String, Bool, true, false, not, ◌&&◌, ◌||◌, Bool-cases, inl, inr, Option, none,
  some, List, [], ◌∷◌, ◌++◌, All, All-append, is_empty, if◌then◌else◌, ◌==◌, find_first, arith,
  eq_iff, eq_refl,
}
use cluster_api_provider_ucl.Cloud.{UlbBackendSet}
use cluster_api_provider_ucl.Service.Backend.{serves}

-- Is the host behind one of the backends?
abbrev pub is_served : List UlbBackendSet → String → Bool
is_served [] h = false
is_served (b ∷ bs) h = serves h b || is_served bs h

-- The backends without the one of that id.
abbrev pub without : String → List UlbBackendSet → List UlbBackendSet
without id [] = []
without id (b ∷ bs) = let rest = without id bs in if b.backend_id == id then rest else b ∷ rest

-- The backend has another id and another host.
abbrev pub Apart : UlbBackendSet → UlbBackendSet → Type 0
Apart b d = ((d.backend_id == b.backend_id) ≡ false) × ((d.resource_id == b.resource_id) ≡ false)

-- Every backend has an id, and no two have the same id or the same host.
abbrev pub IsKeyed : List UlbBackendSet → Type 0
IsKeyed [] = Unit
IsKeyed (b ∷ bs) = (is_empty b.backend_id ≡ false) × All (Apart b) bs × IsKeyed bs

-- No backend has the id.
abbrev pub IsFresh : String → List UlbBackendSet → Type 0
IsFresh id bs = All (λ b. (b.backend_id == id) ≡ false) bs

abbrev found : String → List UlbBackendSet → Option UlbBackendSet
found h bs = find_first (serves h) bs

pub is_served-append :
    (bs : List UlbBackendSet) (b : UlbBackendSet) (h : String)
    → is_served (bs ++ (b ∷ [])) h ≡ (serves h b || is_served bs h)
is_served-append [] b h = refl
is_served-append (d ∷ bs) b h = ground (arith, is_served-append bs b h)

pub found-is_served :
    (bs : List UlbBackendSet) (b : UlbBackendSet) (h : String)
    → found h bs ≡ some b
    → is_served bs h ≡ true
found-is_served [] b h p = cc
found-is_served (d ∷ bs) b h p = ground (arith, found-is_served bs b h)

pub missing-is_served :
    (bs : List UlbBackendSet) (h : String) → found h bs ≡ none → is_served bs h ≡ false
missing-is_served [] h p = refl
missing-is_served (d ∷ bs) h p = ground (arith, missing-is_served bs h)

some_same : {a b : UlbBackendSet} → some a ≡ some b → a ≡ b
some_same p = cc

found-All :
    (P : UlbBackendSet → Type 0) (bs : List UlbBackendSet) (b : UlbBackendSet) (h : String)
    → All P bs
    → found h bs ≡ some b
    → P b
found-All P [] b h all p = cc
found-All P (d ∷ bs) b h all p = elim (Bool-cases (serves h d)) [
  | inl e ↦ subst P (some_same (rw e at p)) all.0
  | inr e ↦ found-All P bs b h all.1 (rw e at p)
]

keyed-ids : (bs : List UlbBackendSet) → IsKeyed bs → All (λ b. is_empty b.backend_id ≡ false) bs
keyed-ids [] k = tt
keyed-ids (b ∷ bs) k = (k.0, keyed-ids bs k.2)

-- The backend that was found has an id.
pub found-id :
    (bs : List UlbBackendSet) (b : UlbBackendSet) (h : String)
    → IsKeyed bs
    → found h bs ≡ some b
    → is_empty b.backend_id ≡ false
found-id bs b h k p = found-All (λ d. is_empty d.backend_id ≡ false) bs b h (keyed-ids bs k) p

without-IsFresh : (id : String) (bs : List UlbBackendSet) → IsFresh id bs → without id bs ≡ bs
without-IsFresh id [] fresh = refl
without-IsFresh id (b ∷ bs) fresh = rw fresh.0 (ap (λ l. b ∷ l) (without-IsFresh id bs fresh.1))

All-without :
    (P : UlbBackendSet → Type 0) (id : String) (bs : List UlbBackendSet)
    → All P bs
    → All P (without id bs)
All-without P id [] all = tt
All-without P id (b ∷ bs) all = elim (Bool-cases (b.backend_id == id)) [
  | inl e ↦ rw e (All-without P id bs all.1)
  | inr e ↦ rw e (all.0, All-without P id bs all.1)
]

pub without-IsKeyed : (id : String) (bs : List UlbBackendSet) → IsKeyed bs → IsKeyed (without id bs)
without-IsKeyed id [] k = tt
without-IsKeyed id (b ∷ bs) k = elim (Bool-cases (b.backend_id == id)) [
  | inl e ↦ rw e (without-IsKeyed id bs k.2)
  | inr e ↦ rw e (k.0, All-without (Apart b) id bs k.1, without-IsKeyed id bs k.2)
]

other_way : (s t : String) → (s == t) ≡ false → (t == s) ≡ false
other_way s t p = ground (arith, eq_iff s t, eq_iff t s)

left_false : (a b : Bool) → (a || b) ≡ false → a ≡ false
left_false false b p = refl
left_false true b p = p

right_false : (a b : Bool) → (a || b) ≡ false → b ≡ false
right_false false b p = p
right_false true b p = cc

pub append-IsKeyed :
    (b : UlbBackendSet) (bs : List UlbBackendSet)
    → is_empty b.backend_id ≡ false
    → IsFresh b.backend_id bs
    → is_served bs b.resource_id ≡ false
    → IsKeyed bs
    → IsKeyed (bs ++ (b ∷ []))
append-IsKeyed b [] has fresh other k = (has, tt, tt)
append-IsKeyed b (d ∷ bs) has fresh other k = (
  k.0,
  All-append (Apart d) bs (b ∷ []) k.1 (
    (
      other_way d.backend_id b.backend_id fresh.0,
      other_way d.resource_id b.resource_id (left_false _ _ other),
    ),
    tt,
  ),
  append-IsKeyed b bs has fresh.1 (right_false _ _ other) k.2,
)

Apart-IsFresh :
    (d : UlbBackendSet) (bs : List UlbBackendSet) → All (Apart d) bs → IsFresh d.backend_id bs
Apart-IsFresh d [] all = tt
Apart-IsFresh d (b ∷ bs) all = (all.0.0, Apart-IsFresh d bs all.1)

Apart-is_served :
    (d : UlbBackendSet) (bs : List UlbBackendSet)
    → All (Apart d) bs
    → is_served bs d.resource_id ≡ false
Apart-is_served d [] all = refl
Apart-is_served d (b ∷ bs) all = rw all.0.1 (Apart-is_served d bs all.1)

-- The first backend is the one of the host.
taken_first :
    (host : String) (d : UlbBackendSet) (bs : List UlbBackendSet) (h : String)
    → All (Apart d) bs
    → serves host d ≡ true
    → is_served (without d.backend_id (d ∷ bs)) h ≡ (not (h == host) && is_served (d ∷ bs) h)
taken_first host d bs h all e =
    let none_left = Apart-is_served d bs all in
    rw (eq_refl d.backend_id) (
      rw (without-IsFresh d.backend_id bs (Apart-IsFresh d bs all))
        (ground (arith, eq_iff d.resource_id host, eq_iff d.resource_id h, eq_iff h host)))

-- It is a later one.
taken_later :
    (host : String) (b d : UlbBackendSet) (rest bs : List UlbBackendSet) (h : String)
    → Apart d b
    → serves host d ≡ false
    → is_served rest h ≡ (not (h == host) && is_served bs h)
    → is_served (if d.backend_id == b.backend_id then rest else d ∷ rest) h
      ≡ (not (h == host) && is_served (d ∷ bs) h)
taken_later host b d rest bs h apart e same =
    rw (other_way b.backend_id d.backend_id apart.0)
      (ground (arith, eq_iff d.resource_id host, eq_iff d.resource_id h, eq_iff h host))

-- The removal of the backend that was found for a host takes out that host alone.
pub is_served-without :
    (host : String) (bs : List UlbBackendSet) (b : UlbBackendSet) (h : String)
    → IsKeyed bs
    → found host bs ≡ some b
    → is_served (without b.backend_id bs) h ≡ (not (h == host) && is_served bs h)
is_served-without host [] b h k p = cc
is_served-without host (d ∷ bs) b h k p = elim (Bool-cases (serves host d)) [
  | inl e ↦
      subst
        (λ (x : UlbBackendSet).
          is_served (without x.backend_id (d ∷ bs)) h ≡ (not (h == host) && is_served (d ∷ bs) h))
        (some_same (rw e at p)) (taken_first host d bs h k.1 e)
  | inr e ↦
      let q = rw e at p in
      taken_later host b d (without b.backend_id bs) bs h (found-All (Apart d) bs b host k.1 q) e
        (is_served-without host bs b h k.2 q)
]
