-- ===== src/Domain/Transports.antt =====
-- The names and ports of the transports, and what a failed join leaves (src/dds_manager.cpp).
use open_ddw.Base.{
  ℕ, ◌+◌, ◌*◌, ◌≤◌, ◌<◌, ◌≡◌, ◌≢◌, refl, ◌∙◌, sym, ap, Bool, true, false, Option, none, some, List,
  [], ◌∷◌, ◌++◌, ◌==◌, arith, if◌then◌else◌, Bool-cases, inl, inr,
}
use open_ddw.Base.Text.{Text, text, same}
use open_ddw.Base.Decimal.{to_string, stoi, stoi-append, to_string-injective}
use open_ddw.Dds.{Outcome, done, ◌>>=◌}
use open_ddw.Domain.{
  GlobalTransport, Setting, create_config, bind_config, build_transports, Instances, Site, Answers,
  next_instance, count_join, config_name, rtps_port, set_transports, join_domain,
}

-- Up to domain 232 the port is the one of the RTPS standard, without overflow.
rtps_port-exact :
    (domain_id : ℕ) → domain_id ≤ 232 → rtps_port domain_id ≡ 7400 + 250 * domain_id + 1
unfolding rtps_port
rtps_port-exact domain_id h = omega arith

append_cancel : (xs ys zs : Text) → xs ++ ys ≡ xs ++ zs → ys ≡ zs
append_cancel [] ys zs e = e
append_cancel (x ∷ xs) ys zs e = append_cancel xs ys zs (cc)

pub config_name-domain : (d e i j : ℕ) → config_name d i ≡ config_name e j → (d ≡ e) × (i ≡ j)
config_name-domain d e i j p =
    let tail : to_string d ++ b'-' ∷ to_string i ≡ to_string e ++ b'-' ∷ to_string j = cc in
    let read : some d ≡ some e =
      sym (stoi-append d b'-' (to_string i) refl)
      ∙ ap stoi tail
      ∙ stoi-append e b'-' (to_string j) refl in
    let same_domain : d ≡ e = cc in
    let ends = append_cancel (to_string e) _ _ (rw same_domain at tail) in
    let counters : to_string i ≡ to_string j = cc in (same_domain, to_string-injective i j counters)

-- A manager before it joins a domain.
abbrev pub new_site : Instances → Site
new_site instances = record {
  domain = none;
  monitored = false;
  instances = instances;
  settings = [];
}

-- The names of the configurations that were created.
abbrev created : List Setting → List Text
created [] = []
created (create_config name ∷ settings) = name ∷ created settings
created (_ ∷ settings) = created settings

-- Managers that join these domains one after the other, without a configuration of the user, and
-- the names of the configurations that they create.
unfoldable pub join_all : Answers → List ℕ → Instances → Outcome (List Text)
unfolding join_domain
join_all a [] instances = done []
join_all a (d ∷ ds) instances = join_domain a d [] false (new_site instances) >>= λ (b, site).
    join_all a ds site.instances >>= λ names. done (created site.settings ++ names)

names_given : Answers → List ℕ → Instances → List Text
names_given a [] instances = []
names_given a (d ∷ ds) instances =
    let name = config_name d (next_instance (instances d)) in
    let rest = names_given a ds (count_join d instances) in
    if a.config_exists name then rest else name ∷ rest

abbrev pub Missing : Text → List Text → Type 0
Missing name [] = Unit
Missing name (n ∷ ns) = (name ≢ n) × Missing name ns

abbrev pub AllDistinct : List Text → Type 0
AllDistinct [] = Unit
AllDistinct (n ∷ ns) = Missing n ns × AllDistinct ns

-- The counter stands at `n` or further.
abbrev Reached : ℕ → Option ℕ → Type 0
Reached n none = n < 1
Reached n (some m) = n ≤ m

Reached-lt : (n : ℕ) (counter : Option ℕ) → Reached n counter → n < next_instance counter
Reached-lt n none r = r
Reached-lt n (some m) r = omega arith

count_join-Reached :
    (d n e : ℕ) (instances : Instances)
    → Reached n (instances d)
    → Reached n (count_join e instances d)
count_join-Reached d n e instances r = elim (Bool-cases (d == e)) [
  | inr other ↦ rw other r
  | inl again ↦
      let q : d ≡ e = ground arith in
      let above = Reached-lt n (instances e) (rw q at r) in rw again (omega arith)
]

names_given-Missing :
    (d n : ℕ) (a : Answers) (ds : List ℕ) (instances : Instances)
    → Reached n (instances d)
    → Missing (config_name d n) (names_given a ds instances)
unfolding names_given
names_given-Missing d n a [] instances r = tt
names_given-Missing d n a (e ∷ ds) instances r =
    let unlike : config_name d n ≢ config_name e (next_instance (instances e)) = λ p.
      let (q, k) = config_name-domain d e n (next_instance (instances e)) p in
      let above = Reached-lt n (instances e) (rw q at r) in absurd (omega arith) in
    let rest =
      names_given-Missing d n a ds (count_join e instances)
        (count_join-Reached d n e instances r) in
    elim (Bool-cases (a.config_exists (config_name e (next_instance (instances e))))) [
      | inl there ↦ rw there rest
      | inr absent ↦ rw absent (unlike, rest)
    ]

names_given-AllDistinct :
    (a : Answers) (ds : List ℕ) (instances : Instances) → AllDistinct (names_given a ds instances)
unfolding names_given
names_given-AllDistinct a [] instances = tt
names_given-AllDistinct a (d ∷ ds) instances =
    let name = config_name d (next_instance (instances d)) in
    let here : (d == d) ≡ true = ground arith in
    let missing : Missing name (names_given a ds (count_join d instances)) =
      names_given-Missing d (next_instance (instances d)) a ds (count_join d instances)
        (rw here (omega arith)) in
    let rest = names_given-AllDistinct a ds (count_join d instances) in
    elim (Bool-cases (a.config_exists name)) [
      | inl there ↦ rw there rest
      | inr absent ↦ rw absent (missing, rest)
    ]

created-build_transports :
    (d n i : ℕ) (types : List GlobalTransport) (name : Text)
    → created (build_transports d n i types ++ bind_config name ∷ []) ≡ []
unfolding build_transports
created-build_transports d n i [] name = refl
created-build_transports d n i (t ∷ types) name =
    elim (Bool-cases (same t.transport_type (text "rtps_udp"))) [
      | inl rtps ↦ rw rtps (created-build_transports d n (i + 1) types name)
      | inr other ↦ rw other (created-build_transports d n (i + 1) types name)
    ]

join_all-names_given :
    (a : Answers) (ds : List ℕ) (instances : Instances)
    → a.heap_opens ≡ true
    → a.imported ≡ true
    → a.has_factory ≡ true
    → a.has_participant ≡ true
    → join_all a ds instances ≡ done (names_given a ds instances)
unfolding join_all names_given set_transports
join_all-names_given a [] instances h₁ h₂ h₃ h₄ = refl
join_all-names_given a (d ∷ ds) instances h₁ h₂ h₃ h₄ =
    let rest = join_all-names_given a ds (count_join d instances) h₁ h₂ h₃ h₄ in
    elim (Bool-cases (a.config_exists (config_name d (next_instance (instances d))))) [
      | inl there ↦ rw (h₁, h₂, h₃, h₄, there, rest) refl
      | inr absent ↦
          rw
            (
              h₁,
              h₂,
              h₃,
              h₄,
              absent,
              rest,
              created-build_transports d (next_instance (instances d)) 0 a.global_transports
                  (config_name d (next_instance (instances d))),
            )
            refl
    ]

-- Where OpenDDS lets every manager have its participant, and whatever configurations exist already,
-- managers that join any domains one after the other never create two configurations of the same
-- name.
pub join_all-AllDistinct :
    (a : Answers) (ds : List ℕ) (instances : Instances)
    → a.heap_opens ≡ true
    → a.imported ≡ true
    → a.has_factory ≡ true
    → a.has_participant ≡ true
    → (names : List Text) × (join_all a ds instances ≡ done names) × AllDistinct names
join_all-AllDistinct a ds instances h₁ h₂ h₃ h₄ = (
  names_given a ds instances,
  join_all-names_given a ds instances h₁ h₂ h₃ h₄,
  names_given-AllDistinct a ds instances,
)

-- Where OpenDDS makes the participant, but the configuration that the user names does not exist,
-- joining a domain returns false and keeps the participant: asked again for the domain, with whatever
-- configuration, the manager returns true, without the transport registry ever having been told
-- anything.
pub join_domain-again :
    (a a' : Answers) (d : ℕ) (c : ℕ) (cs config' : Text) (w w' : Bool) (instances : Instances)
    → a.heap_opens ≡ true
    → a.imported ≡ true
    → a.has_factory ≡ true
    → a.has_participant ≡ true
    → a.config_exists (c ∷ cs) ≡ false
    → (site : Site) × (join_domain a d (c ∷ cs) w (new_site instances) ≡ done (false, site))
      × (join_domain a' d config' w' site ≡ done (true, site))
      × (site.settings ≡ [])
unfolding join_domain set_transports
join_domain-again a a' d c cs config' w w' instances h₁ h₂ h₃ h₄ unknown = (
  record (new_site instances) {
    domain = some d;
    monitored = w;
    instances = count_join d instances;
  },
  rw (h₁, h₂, h₃, h₄, unknown) refl,
  ground arith,
  refl,
)
