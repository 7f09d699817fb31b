-- ===== src/Manager/Footprint.antt =====
-- What an operation on a topic leaves as it is (src/dds_manager.cpp): the groups of the other topics
-- and the members of the manager, and, of the topic's own listeners, whose handler they have.
pub mod Settings
pub mod Register
pub mod Handlers
pub mod Topics
pub mod Persistence
pub mod Calls
pub mod Refilter
pub mod Endpoints
use open_ddw.Base.{
  ◌⊎◌, ℕ, ◌≡◌, refl, ap, ◌∙◌, sym, Bool, true, false, Option, none, some, List, [], ◌∷◌, arith,
  if◌then◌else◌, inl, inr,
}
use open_ddw.Base.Text.{Text, same, same_refl}
use open_ddw.Base.Dict.{contains, Dict, All, insert, erase, lookup-erase}
use open_ddw.Qos.{OrderKind}
use open_ddw.Dds.{Event, Trace, Outcome, done, null_dereference, throws, terminates, ◌>>=◌}
use open_ddw.Group.{TopicGroup, GenericListener}
use open_ddw.Manager.{Manager, Slot, missing, null, found, slot, put_group, slot-put_group, call}

abbrev pub HasHandler : Option ℕ → GenericListener → Type 0
HasHandler h l = l.handler ≡ h

-- Every reader listener of the topic has the handler.
abbrev pub IsHandled : Option ℕ → Slot → Type 0
IsHandled h missing = Unit
IsHandled h null = Unit
IsHandled h (found g) = All (HasHandler h) g.reader_listeners

abbrev pub members : Manager → Option ℕ × Option ℕ × Option ℕ × OrderKind
members m = (m.participant, m.rl_handler, m.wl_handler, m.order)

-- The topic has a reader of the name.
abbrev pub HasReader : Text → Slot → Type 0
HasReader k missing = ⊥
HasReader k null = ⊥
HasReader k (found g) = contains k g.readers ≡ true

pub record Elsewhere (name : Text) (m m' : Manager) : Type 0 where
  pub members_kept : members m' ≡ members m
  pub elsewhere : (j : Text) → same j name ≡ false → slot m' j ≡ slot m j
  pub handled : IsHandled m.rl_handler (slot m name) → IsHandled m'.rl_handler (slot m' name)

pub record Footprint (name : Text) (m m' : Manager) : Type 0 where
  pub outside : Elsewhere name m m'
  pub readers_kept : (k : Text) → HasReader k (slot m name) → HasReader k (slot m' name)

-- A group that may take the place of the topic's.
abbrev pub Fits : Text → TopicGroup → Manager → Type 0
Fits name g m =
    (IsHandled m.rl_handler (slot m name) → All (HasHandler m.rl_handler) g.reader_listeners)
    × ((k : Text) → HasReader k (slot m name) → contains k g.readers ≡ true)

-- Of the manager in what an operation returns, where it returns.
abbrev pub Post {ℓ} : {A : Type ℓ} → (A → Manager) → Text → Manager → Outcome A → Type 0
Post state name m (done a) = Footprint name m (state a)
Post state name m null_dereference = Unit
Post state name m (throws message) = Unit
Post state name m terminates = Unit

pub Footprint-refl : (name : Text) (m : Manager) → Footprint name m m
Footprint-refl name m = record {
  outside = record { members_kept = refl; elsewhere = λ j e. refl; handled = λ h. h };
  readers_kept = λ k h. h;
}

pub Footprint-trans :
    (name : Text) (m₁ m₂ m₃ : Manager)
    → Footprint name m₁ m₂
    → Footprint name m₂ m₃
    → Footprint name m₁ m₃
Footprint-trans name m₁ m₂ m₃ f g = record {
  outside = record {
    members_kept = g.outside.members_kept ∙ f.outside.members_kept;
    elsewhere = λ j e. g.outside.elsewhere j e ∙ f.outside.elsewhere j e;
    handled = λ h. g.outside.handled (f.outside.handled h);
  };
  readers_kept = λ k h. g.readers_kept k (f.readers_kept k h);
}

pub Post-after {ℓ} :
    {A : Type ℓ} (state : A → Manager) (name : Text) (m m₁ : Manager) (r : Outcome A)
    → Footprint name m m₁
    → Post state name m₁ r
    → Post state name m r
Post-after state name m m₁ (done a) f p = Footprint-trans name m m₁ (state a) f p
Post-after state name m m₁ null_dereference f p = p
Post-after state name m m₁ (throws message) f p = p
Post-after state name m m₁ terminates f p = p

pub >>=-Post {ℓ ℓ'} :
    {A : Type ℓ} {B : Type ℓ'} (from : A → Manager) (to : B → Manager) (name : Text) (m : Manager)
    (r : Outcome A) (f : A → Outcome B)
    → Post from name m r
    → ((a : A) → Post to name (from a) (f a))
    → Post to name m (r >>= f)
>>=-Post from to name m (done a) f p k = Post-after to name m (from a) (f a) p (k a)
>>=-Post from to name m null_dereference f p k = p
>>=-Post from to name m (throws message) f p k = p
>>=-Post from to name m terminates f p k = p

pub put_group-Footprint :
    (name : Text) (g : TopicGroup) (m : Manager)
    → Fits name g m
    → Footprint name m (put_group name g m)
unfolding put_group
put_group-Footprint name g m fits = record {
  outside = record {
    members_kept = refl;
    elsewhere = λ j e. rw (slot-put_group j name g m, e) refl;
    handled = λ h. rw (slot-put_group name name g m, same_refl name) (fits.0 h);
  };
  readers_kept = λ k h. rw (slot-put_group name name g m, same_refl name) (fits.1 k h);
}

pub call-Footprint : (name : Text) (event : Event) (m : Manager) → Footprint name m (call event m)
unfolding slot
call-Footprint name event m = record {
  outside = record { members_kept = refl; elsewhere = λ j e. refl; handled = λ h. h };
  readers_kept = λ k h. h;
}

pub call-Post {ℓ} :
    {A : Type ℓ} (state : A → Manager) (name : Text) (event : Event) (m : Manager) (r : Outcome A)
    → Post state name (call event m) r
    → Post state name m r
call-Post state name event m r p =
    Post-after state name m (call event m) r (call-Footprint name event m) p

pub erase-Elsewhere :
    (name : Text) (calls : Trace) (m : Manager)
    → Elsewhere name m (record m { topics = erase name m.topics; calls = calls })
unfolding slot
erase-Elsewhere name calls m = record {
  members_kept = refl;
  elsewhere = λ j e. rw (lookup-erase j name m.topics, e) refl;
  handled = λ h. rw (lookup-erase name name m.topics, same_refl name) tt;
}

pub Slot-cases : (s : Slot) → (s ≡ missing) ⊎ ((s ≡ null) ⊎ ((g : TopicGroup) × (s ≡ found g)))
Slot-cases missing = inl refl
Slot-cases null = inr (inl refl)
Slot-cases (found g) = inr (inr (g, refl))

pub found-handled :
    (name : Text) (g : TopicGroup) (m : Manager)
    → slot m name ≡ found g
    → IsHandled m.rl_handler (slot m name)
    → All (HasHandler m.rl_handler) g.reader_listeners
found-handled name g m e h = rw e at h

pub found-Fits :
    (name : Text) (g : TopicGroup) (m : Manager) → slot m name ≡ found g → Fits name g m
found-Fits name g m e = (found-handled name g m e, λ k h. rw e at h)
