-- ===== src/User/Server/Handlers/Termination.antt =====
-- Requests to end a replication: `terminate` of user/atdr_linux/replic_server.c.
use greko.Base.{
  ℕ, ◌≡◌, refl, ap, ◌∙◌, Bool, true, false, if◌then◌else◌, update_self, inl, inr, Bool-cases, List,
  [], ◌∷◌,
}
use greko.User.Types.{Header, ObjectState}
use greko.User.ServerBitmap.{bitmap_server_destroy}
use greko.User.Server.{Server, GivenBack, terminate, terminated, is_released_partner}

pub terminate-idle :
    (h : Header) (s : Server)
    → is_released_partner (s.partner h.partner_id).obj_state ≡ true
    → terminate h s ≡ (h, s)
unfolding terminate
terminate-idle h s e = rw e refl

pub terminate-terminated :
    (h : Header) (s : Server)
    → is_released_partner (s.partner h.partner_id).obj_state ≡ false
    → terminate h s ≡ (h, terminated h.partner_id s)
unfolding terminate
terminate-terminated h s e = ap (λ b. if b then (h, s) else (h, terminated h.partner_id s)) e

pub terminate-released :
    (h : Header) (s : Server)
    → is_released_partner ((terminate h s).1.partner h.partner_id).obj_state ≡ true
terminate-released h s =
    let state : Header × Server → Bool =
      λ t. is_released_partner (t.1.partner h.partner_id).obj_state in
    elim (Bool-cases (is_released_partner (s.partner h.partner_id).obj_state)) [
      | inl e ↦ ap state (terminate-idle h s e) ∙ e
      | inr e ↦
          ap state (terminate-terminated h s e)
          ∙ ap (λ p. is_released_partner p.obj_state) (update_self s.partner h.partner_id _)
    ]

terminate_again :
    (h h' : Header) (s : Server)
    → h'.partner_id ≡ h.partner_id
    → terminate h' (terminate h s).1 ≡ (h', (terminate h s).1)
terminate_again h h' s e = terminate-idle h' (terminate h s).1 (
    ap (λ i. is_released_partner ((terminate h s).1.partner i).obj_state) e
    ∙ terminate-released h s)

-- Requests to end a replication, one after the other.
unfoldable pub terminate_all : List Header → Server → Server
terminate_all [] s = s
terminate_all (h ∷ rest) s = terminate_all rest (terminate h s).1

abbrev pub AllOf : ℕ → List Header → Type 0
AllOf pid [] = Unit
AllOf pid (h ∷ rest) = (h.partner_id ≡ pid) × AllOf pid rest

terminate_all-idle :
    (h : Header) (rest : List Header) (s : Server)
    → AllOf h.partner_id rest
    → terminate_all rest (terminate h s).1 ≡ (terminate h s).1
unfolding terminate_all
terminate_all-idle h [] s all = refl
terminate_all-idle h (h' ∷ rest) s (same, all) =
    ap (λ t. terminate_all rest t.1) (terminate_again h h' s same) ∙ terminate_all-idle h rest s all

-- Any positive number of requests to end the replication of one partner that is not released: its disk is
-- flushed and closed and the block of its bitmap freed once, the half that was copied is cleared, its
-- disk is released, and nothing else is given back.
pub terminate_all-once :
    (h : Header) (rest : List Header) (s : Server)
    → is_released_partner (s.partner h.partner_id).obj_state ≡ false
    → AllOf h.partner_id rest
    → let s' = terminate_all (h ∷ rest) s in
      (s'.given_back
        ≡ GivenBack.free (s.bitmap h.partner_id).bitmap_area
          ∷ GivenBack.close (s.disk h.partner_id).disk_fd
          ∷ GivenBack.flush (s.disk h.partner_id).disk_fd
          ∷ s.given_back)
      × (s'.kernel.memory
          ≡ bitmap_server_destroy
              (s.bitmap h.partner_id)
              (s.disk h.partner_id).mapping
              s.kernel.memory)
      × ((s'.disk h.partner_id).obj_state ≡ ObjectState.released)
unfolding terminate_all
terminate_all-once h rest s here all =
    let e : terminate_all rest (terminate h s).1 ≡ terminated h.partner_id s =
      terminate_all-idle h rest s all ∙ ap (λ t. t.1) (terminate-terminated h s here) in
    (
      ap (λ s. s.given_back) e,
      ap (λ s. s.kernel.memory) e,
      ap (λ s. (s.disk h.partner_id).obj_state) e
          ∙ ap (λ d. d.obj_state) (update_self s.disk h.partner_id _),
    )
