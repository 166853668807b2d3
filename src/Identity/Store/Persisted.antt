-- ===== src/Identity/Store/Persisted.antt =====
-- What is written of teams that stand under their own ids.
use molenkopf.Base.{
  String, Bool, true, false, not, ◌≡◌, refl, inl, inr, ap, ◌∙◌, Bool-cases, List, [], ◌∷◌, arith,
  ◌==◌, eq_iff, eq_refl, all, includes, Dict, has, values, insert, map_values, all_rows, erase_all,
  IsDistinct,
}
use molenkopf.Identity.{Team, IdentityData}
use molenkopf.Identity.Store.{keys_without, without_managers, persist_teams, persisted_identity}

-- Each team stands under its own id, and no id stands twice.
pub record AreTeamsNamed (d : IdentityData) : Type 0 where
  pub named : all_rows (λ id t. t.id == id) d.teams ≡ true
  pub distinct : IsDistinct d.teams

fresh_ids :
    (k : String) (teams : Dict Team)
    → all_rows (λ id t. t.id == id) teams ≡ true
    → has k teams ≡ false
    → all (λ t. not (k == t.id)) (values teams) ≡ true
fresh_ids k [] named fresh = refl
fresh_ids k ((id, t) ∷ teams) named fresh =
    ground (arith, eq_iff k t.id, eq_iff t.id id, eq_iff id k, fresh_ids k teams)

module _ (gone : String → Bool) where
  -- A row that no team is assigned to stays in front.
  persist_teams-front :
      (k : String) (t : Team) (ts : List Team) (teams : Dict Team)
      → all (λ t. not (k == t.id)) ts ≡ true
      → persist_teams gone ts ((k, t) ∷ teams) ≡ (k, t) ∷ persist_teams gone ts teams
  persist_teams-front k t [] teams h = refl
  persist_teams-front k t (u ∷ us) teams h = elim (Bool-cases (k == u.id)) [
    | inl e ↦ absurd (ground arith)
    | inr e ↦
        rw e
          (persist_teams-front k t us (insert u.id (without_managers gone u) teams) (ground arith))
  ]

  persist_teams-in_place :
      (teams : Dict Team)
      → all_rows (λ id t. t.id == id) teams ≡ true
      → IsDistinct teams
      → persist_teams gone (values teams) teams ≡ map_values (without_managers gone) teams
  persist_teams-in_place [] named distinct = refl
  persist_teams-in_place ((id, t) ∷ teams) named distinct =
      let rest : all_rows (λ id t. t.id == id) teams ≡ true = ground arith in
      let same : (id == t.id) ≡ true = ground (arith, eq_iff t.id id, eq_refl id) in
      rw (persist_teams, same)
        (persist_teams-front id (without_managers gone t) (values teams) teams
            (fresh_ids id teams rest distinct.0)
          ∙ ap (λ (r : Dict Team). (id, without_managers gone t) ∷ r)
              (persist_teams-in_place teams rest distinct.1))

pub persisted_identity-in_place :
    (d : IdentityData) (ephemeral : List String)
    → AreTeamsNamed d
    → persisted_identity d ephemeral ≡ record d {
      users = erase_all ephemeral d.users;
      keys = keys_without (includes ephemeral) d.keys;
      teams = map_values (without_managers (includes ephemeral)) d.teams;
    }
unfolding persisted_identity
persisted_identity-in_place d ephemeral h =
    cc (persist_teams-in_place (includes ephemeral) d.teams h.named h.distinct)
