-- ===== src/Net/Route/Best.antt =====
-- Which route `ip_route_get` of kernel/net/ipv4/route.c chooses.
use monolith.Net.Route.{RouteEntry, ip_route_get, route_loop, route_matches}
use monolith.Prelude.{
  Bool-cases, List, Option, [], append-nil, append_assoc, arith, false, if◌then◌else◌, inl, inr,
  ltb, none, refl, some, true, ℕ, ◌&&◌, ◌++◌, ◌<◌, ◌∷◌, ◌≡◌, ◌≤◌,
}

-- no matching entry has a larger metric
abbrev pub AllAtMost : ℕ → ℕ → List RouteEntry → Type 0
AllAtMost ip m [] = Unit
AllAtMost ip m (e ∷ es) = (if route_matches ip e then (e.metric ≤ m) else Unit) × AllAtMost ip m es

-- no matching entry has the metric or a larger one
abbrev pub AllBelow : ℕ → ℕ → List RouteEntry → Type 0
AllBelow ip m [] = Unit
AllBelow ip m (e ∷ es) = (if route_matches ip e then (e.metric < m) else Unit) × AllBelow ip m es

-- the table is `front`, the chosen entry, `back`: the entry matches, its metric is not 0, no match
-- has a larger one, and none in front of it has an equal one
pub record Chosen (ip : ℕ) (table : List RouteEntry) (r : RouteEntry) : Type 0 where
  pub front : List RouteEntry
  pub back : List RouteEntry
  pub split : table ≡ front ++ (r ∷ back)
  pub matches : route_matches ip r ≡ true
  pub positive : 0 < r.metric
  pub before : AllBelow ip r.metric front
  pub behind : AllAtMost ip r.metric back

abbrev pub Choice : ℕ → List RouteEntry → Option RouteEntry → Type 0
Choice ip table none = AllAtMost ip 0 table
Choice ip table (some r) = Chosen ip table r

-- the loop, where `seen` is the part of the table that is done
AllBelow-mono : (ip m n : ℕ) (es : List RouteEntry) → m < n → AllAtMost ip m es → AllBelow ip n es
AllBelow-mono ip m n [] h a = tt
AllBelow-mono ip m n (e ∷ es) h a = elim (Bool-cases (route_matches ip e)) [
  | inl t ↦ rw t (omega (arith, rw t at a.0), AllBelow-mono ip m n es h a.1)
  | inr f ↦ rw f (tt, AllBelow-mono ip m n es h a.1)
]

AllAtMost-append :
    (ip m : ℕ) (xs : List RouteEntry) (e : RouteEntry)
    → AllAtMost ip m xs
    → (if route_matches ip e then (e.metric ≤ m) else Unit)
    → AllAtMost ip m (xs ++ (e ∷ []))
AllAtMost-append ip m [] e a h = (h, tt)
AllAtMost-append ip m (x ∷ xs) e a h = (a.0, AllAtMost-append ip m xs e a.1 h)

-- the best of the entries seen so far
abbrev Sofar : ℕ → List RouteEntry → Option RouteEntry → ℕ → Type 0
Sofar ip seen none m = (m ≡ 0) × AllAtMost ip 0 seen
Sofar ip seen (some r) m = (m ≡ r.metric) × Chosen ip seen r

Sofar-AllAtMost :
    (ip : ℕ) (seen : List RouteEntry) (b : Option RouteEntry) (m : ℕ)
    → Sofar ip seen b m
    → AllAtMost ip m seen
Sofar-AllAtMost ip seen none m s = rw s.0 s.1
Sofar-AllAtMost ip seen (some r) m s = rw (s.0, s.1.split) (go s.1.front s.1.before)
  where
    go :
        (xs : List RouteEntry)
        → AllBelow ip r.metric xs
        → AllAtMost ip r.metric (xs ++ (r ∷ s.1.back))
    go [] a = (rw s.1.matches (omega arith), s.1.behind)
    go (x ∷ xs) a = elim (Bool-cases (route_matches ip x)) [
      | inl t ↦ rw t (omega (arith, rw t at a.0), go xs a.1)
      | inr f ↦ rw f (tt, go xs a.1)
    ]

not_better-le :
    (ip m : ℕ) (e : RouteEntry)
    → (route_matches ip e && ltb m e.metric) ≡ false
    → (if route_matches ip e then (e.metric ≤ m) else Unit {0})
not_better-le ip m e f = elim (Bool-cases (route_matches ip e)) [
  | inl t ↦ let g = rw t at f in rw t (ground arith)
  | inr n ↦ rw n tt
]

Sofar-keep :
    (ip : ℕ) (seen : List RouteEntry) (b : Option RouteEntry) (m : ℕ) (e : RouteEntry)
    → (route_matches ip e && ltb m e.metric) ≡ false
    → Sofar ip seen b m
    → Sofar ip (seen ++ (e ∷ [])) b m
Sofar-keep ip seen none m e f s =
    (s.0, AllAtMost-append ip 0 seen e s.1 (rw s.0 at (not_better-le ip m e f)))
Sofar-keep ip seen (some r) m e f s = (
  s.0,
  record {
    front = s.1.front;
    back = s.1.back ++ (e ∷ []);
    split = rw s.1.split (append_assoc s.1.front (r ∷ s.1.back) (e ∷ []));
    matches = s.1.matches;
    positive = s.1.positive;
    before = s.1.before;
    behind =
        AllAtMost-append ip r.metric s.1.back e s.1.behind (rw s.0 at (not_better-le ip m e f));
  },
)

Sofar-next :
    (ip : ℕ) (seen : List RouteEntry) (b : Option RouteEntry) (m : ℕ) (e : RouteEntry)
    → Sofar ip seen b m
    → Sofar ip
        (seen ++ (e ∷ []))
        (if route_matches ip e && ltb m e.metric then some e else b)
        (if route_matches ip e && ltb m e.metric then e.metric else m)
Sofar-next ip seen b m e s = elim (Bool-cases (route_matches ip e && ltb m e.metric)) [
  | inr f ↦ rw f (Sofar-keep ip seen b m e f s)
  | inl better ↦ rw better (
    refl,
    record {
      front = seen;
      back = [];
      split = refl;
      matches = ground arith;
      positive = ground arith;
      before = AllBelow-mono ip m e.metric seen (ground arith) (Sofar-AllAtMost ip seen b m s);
      behind = tt;
    },
  )
]

route_loop-Choice :
    (ip : ℕ) (seen rest : List RouteEntry) (b : Option RouteEntry) (m : ℕ)
    → Sofar ip seen b m
    → Choice ip (seen ++ rest) (route_loop ip rest b m)
unfolding route_loop
route_loop-Choice ip seen [] none m s = rw append-nil s.1
route_loop-Choice ip seen [] (some r) m s = rw append-nil s.1
route_loop-Choice ip seen (e ∷ rest) b m s =
    rw (← append_assoc seen (e ∷ []) rest)
      (route_loop-Choice ip (seen ++ (e ∷ [])) rest _ _ (Sofar-next ip seen b m e s))

-- `ip_route_get` returns the first of the matching routes with the largest metric, and returns none
-- exactly if no matching route has a metric above 0.
pub ip_route_get-Choice :
    (table : List RouteEntry) (ip : ℕ) → Choice ip table (ip_route_get table ip)
unfolding ip_route_get
ip_route_get-Choice table ip = route_loop-Choice ip [] table none 0 (refl, tt)
