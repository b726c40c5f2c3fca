-- ===== src/User/Client/Keys.antt =====
-- The ids in the client's table of partners, and what the operations on the tables of
-- user/atdr_linux/atdr_partner_client.c do to them.
use greko.Base.{
  ℕ, zero, suc, ◌+◌, ◌≤◌, ◌<◌, ◌≡◌, ◌↔◌, refl, sym, ap, ◌∙◌, true, ==_cases, Option, none, some,
  List, arith, ◌⊎◌, inl, inr, ◌>>=◌, Bool,
}
use mathlib.Core.Path.{subst}
use greko.User.Server.{Partner, max_partners}
use greko.User.Types.{Header}
use greko.User.Client.{
  Daemon, System, client_has_id, is_client_partner_id_valid, partner_client_obj_create,
  make_partner_client, make_relation_client, relation_client_obj_destroy, replic_hdr_client_nego,
  partner_client_obj_destroy, disk_target_create, disk_target_setup, ebdr_conn_client_setup,
  bitmap_client_create,
}

-- Every entry has the id 0 or that of its place.
abbrev pub IsKeyed : Daemon → Type 0
IsKeyed s = (i : ℕ) → ((s.partner i).id ≡ 0) ⊎ ((s.partner i).id ≡ i)

abbrev pub SameIds : Daemon → Daemon → Type 0
SameIds s t = (i : ℕ) → (t.partner i).id ≡ (s.partner i).id

pub SameIds-IsKeyed : (s t : Daemon) → SameIds s t → IsKeyed s → IsKeyed t
SameIds-IsKeyed s t same v i = ground (arith, same i, v i)

-- A step that keeps the ids, and then one that does.
pub then-SameIds :
    {W : Type 0} (s : Daemon) (m : Option (Daemon × W)) (f : Daemon × W → Option (Daemon × W))
    (t : Daemon) (w : W)
    → ((a : Daemon) (b : W) → m ≡ some (a, b) → SameIds s a)
    → ((a : Daemon) (b : W) → f (a, b) ≡ some (t, w) → SameIds a t)
    → (m >>= f) ≡ some (t, w)
    → SameIds s t
then-SameIds s none f t w h k e i = absurd (cc e)
then-SameIds s (some (a, b)) f t w h k e i = k a b e i ∙ h a b refl i

pub then-IsKeyed :
    {W : Type 0} (m : Option (Daemon × W)) (f : Daemon × W → Option (Daemon × W)) (t : Daemon)
    (w : W)
    → ((a : Daemon) (b : W) → m ≡ some (a, b) → IsKeyed a)
    → ((a : Daemon) (b : W) → IsKeyed a → f (a, b) ≡ some (t, w) → IsKeyed t)
    → (m >>= f) ≡ some (t, w)
    → IsKeyed t
then-IsKeyed none f t w h k e = absurd (cc e)
then-IsKeyed (some (a, b)) f t w h k e = k a b (h a b refl) e

pub end-IsKeyed :
    {W : Type 0} (p : Daemon × W) (t : Daemon) (w : W)
    → some p ≡ some (t, w)
    → IsKeyed p.0
    → IsKeyed t
end-IsKeyed p t w e v = let same : p ≡ (t, w) = cc e in subst (λ q. IsKeyed q.0) same v

-- An entry with the id is found, and one that is found has the id.
has_id-found :
    (partner : ℕ → Partner) (pid n i j : ℕ)
    → i ≤ j
    → j < i + n
    → (partner j).id ≡ pid
    → client_has_id partner pid n i ≡ true
unfolding client_has_id
has_id-found partner pid zero i j lo hi e = absurd (omega arith)
has_id-found partner pid (suc n) i j lo hi e = elim (==_cases i j) [
  | inl same ↦ let here : (partner i).id ≡ pid = ap (λ k. (partner k).id) same ∙ e in ground arith
  | inr other ↦
      let later = has_id-found partner pid n (suc i) j (omega arith) (omega arith) e in ground arith
]

found-has_id :
    (partner : ℕ → Partner) (pid n i : ℕ)
    → client_has_id partner pid n i ≡ true
    → (j : ℕ) × ((partner j).id ≡ pid)
unfolding client_has_id
found-has_id partner pid zero i e = absurd (cc e)
found-has_id partner pid (suc n) i e = elim (==_cases (partner i).id pid) [
  | inl same ↦ (i, same)
  | inr other ↦ found-has_id partner pid n (suc i) (ground arith)
]

-- In a table where every entry has the id 0 or that of its place, a partner id within the table is valid
-- if and only if its own entry has that id.
pub is_client_partner_id_valid_iff :
    (pid : ℕ) (s : Daemon)
    → IsKeyed s
    → pid < max_partners
    → (is_client_partner_id_valid pid s ≡ true) ↔ ((s.partner pid).id ≡ pid)
unfolding is_client_partner_id_valid
is_client_partner_id_valid_iff pid s v lt = (
  λ e. let (j, same) = found-has_id s.partner pid max_partners 0 e in own j (v j) same (v pid),
  λ e. has_id-found s.partner pid max_partners 0 pid (omega arith) (omega arith) e,
)
  where
    own :
        (j : ℕ)
        → ((s.partner j).id ≡ 0) ⊎ ((s.partner j).id ≡ j)
        → (s.partner j).id ≡ pid
        → ((s.partner pid).id ≡ 0) ⊎ ((s.partner pid).id ≡ pid)
        → (s.partner pid).id ≡ pid
    own j (inl z) same (inl y) = y ∙ sym z ∙ same
    own j (inl z) same (inr y) = y
    own j (inr z) same w = ap (λ k. (s.partner k).id) (sym (sym z ∙ same)) ∙ same

-- The operations on the tables.
pub make_partner_client-IsKeyed :
    (ip : List ℕ) (bandwidth sfd pid : ℕ) (s : Daemon)
    → IsKeyed s
    → IsKeyed (make_partner_client ip bandwidth sfd pid s)
unfolding make_partner_client
make_partner_client-IsKeyed ip bandwidth sfd pid s v i = ground (arith, v i)

pub partner_client_obj_create-SameIds :
    (pid : ℕ) (s t : Daemon) → partner_client_obj_create pid s ≡ some t → SameIds s t
unfolding partner_client_obj_create
partner_client_obj_create-SameIds pid s t e i = ground arith

pub disk_target_create-SameIds :
    (name : List ℕ) (slot : ℕ) (s : Daemon) → SameIds s (disk_target_create name slot s)
unfolding disk_target_create
disk_target_create-SameIds name slot s i = ground arith

pub make_relation_client-SameIds :
    (role : Bool) (pid : ℕ) (disk : List ℕ) (s : Daemon)
    → SameIds s (make_relation_client role pid disk s)
unfolding make_relation_client
make_relation_client-SameIds role pid disk s i = refl

pub relation_client_obj_destroy-SameIds :
    (rid : ℕ) (s : Daemon) → SameIds s (relation_client_obj_destroy rid s)
unfolding relation_client_obj_destroy
relation_client_obj_destroy-SameIds rid s i = refl

pub replic_hdr_client_nego-SameIds :
    (h : Header) (pid : ℕ) (s : Daemon) → SameIds s (replic_hdr_client_nego h pid s)
unfolding replic_hdr_client_nego
replic_hdr_client_nego-SameIds h pid s i = refl

module _ {W : Type 0} (sys : System W) where
  pub partner_client_obj_destroy-IsKeyed :
      (pid : ℕ) (s : Daemon) (w : W)
      → IsKeyed s
      → IsKeyed (partner_client_obj_destroy sys pid s w).0
  unfolding partner_client_obj_destroy
  partner_client_obj_destroy-IsKeyed pid s w v i = ground (arith, v i)

  pub disk_target_setup-SameIds :
      (slot : ℕ) (s : Daemon) (w : W) → SameIds s (disk_target_setup sys slot s w).0
  unfolding disk_target_setup
  disk_target_setup-SameIds slot s w i = ground arith

  pub ebdr_conn_client_setup-SameIds :
      (ip : List ℕ) (pid : ℕ) (s : Daemon) (w : W) (t : Daemon) (w1 : W)
      → ebdr_conn_client_setup sys ip pid s w ≡ some (t, w1)
      → SameIds s t
  unfolding ebdr_conn_client_setup
  ebdr_conn_client_setup-SameIds ip pid s w t w1 e i = ground arith

  pub bitmap_client_create-SameIds :
      (pid : ℕ) (s : Daemon) (w : W) (t : Daemon) (w1 : W)
      → bitmap_client_create sys pid s w ≡ some (t, w1)
      → SameIds s t
  unfolding bitmap_client_create
  bitmap_client_create-SameIds pid s w t w1 e i = ground arith
