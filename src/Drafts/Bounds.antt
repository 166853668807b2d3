-- ===== src/Drafts/Bounds.antt =====
-- The list of the drafts stays within its bounds.
use molenkopf.Base.{
  suc, String, ◌≡◌, refl, inl, inr, true, false, ◌||◌, Option, none, some, List, [], ◌∷◌, arith,
  ◌==◌, eq_iff, ltb, if◌then◌else◌, Bool-cases, Option-cases, is_some, Result, ok, fail, length,
  find, any, all, includes, IsUnique, Dict, lookup,
}
use mathlib.Core.Path.{subst}
use molenkopf.Runtime.{ProviderConfig, UsageTotals}
use molenkopf.Config.Laws.{Holds, Holds-bind, Holds-ensure}
use molenkopf.Drafts.{
  Input, DraftError, failure, AgentDraftMetadata, max_agent_drafts, raw_credential_field, clean_id,
  or_missing, has_draft_id, stored, draft_with, has_room, new_draft, answered, checked_draft,
  upsert_agent_draft,
}
use molenkopf.Drafts.Laws.{
  is_hash_option, draft_ids, IsDrafts, Holds-mono, find-some, found-hashed, is_sound, fits,
  draft_with_sound,
}

module _ (known enabled : List String) (providers : List ProviderConfig) (active now : String) where
  room_fits :
      (id : String) (drafts : List AgentDraftMetadata) (o : Option AgentDraftMetadata)
      → is_some o ≡ any (has_draft_id id) drafts
      → has_room known enabled providers active now o drafts ≡ true
      → (any (has_draft_id id) drafts || ltb (length drafts) max_agent_drafts) ≡ true
  room_fits id drafts none e h = ground (arith)
  room_fits id drafts (some d) e h = ground (arith)

  sound_fits :
      (id : String) (drafts : List AgentDraftMetadata) (d : AgentDraftMetadata)
      → (any (has_draft_id id) drafts || ltb (length drafts) max_agent_drafts) ≡ true
      → is_sound id d ≡ true
      → fits drafts d ≡ true
  unfolding is_sound fits
  sound_fits id drafts d h k =
      let same : id ≡ d.id = ground (arith, eq_iff d.id id) in
      let place : (any (has_draft_id d.id) drafts || ltb (length drafts) max_agent_drafts) ≡ true =
        subst
          (λ (i : String).
            (any (has_draft_id i) drafts || ltb (length drafts) max_agent_drafts) ≡ true)
          same h in
      ground (arith)

  new_draft-fits :
      (input : Dict Input) (drafts : List AgentDraftMetadata) (id : String)
      → IsDrafts drafts
      → Holds (fits drafts) (new_draft known enabled providers active now input drafts id)
  new_draft-fits input drafts id h =
      let existing = find (has_draft_id id) drafts in
      Holds-ensure (fits drafts) (has_room known enabled providers active now existing drafts)
        (failure 409 "agent_draft_limit") _
        (λ room.
          Holds-mono (is_sound id) (fits drafts)
            (λ d k.
              sound_fits id drafts d
                (room_fits id drafts existing (find-some (has_draft_id id) drafts) room) k)
            (draft_with known enabled providers active now input id existing)
            (draft_with_sound known enabled providers active now input id existing
              (found-hashed id drafts h.hashed)))

  checked_draft-fits :
      (input : Dict Input) (drafts : List AgentDraftMetadata)
      → IsDrafts drafts
      → Holds (fits drafts) (checked_draft known enabled providers active now input drafts)
  unfolding checked_draft
  checked_draft-fits input drafts h = elim (Option-cases (raw_credential_field input)) [
    | inl e ↦
        rw (checked_draft, e)
          (Holds-bind (fits drafts)
            (or_missing (failure 400 "invalid_agent_id") (clean_id (lookup "id" input)))
            (λ id. new_draft known enabled providers active now input drafts id)
            (λ id _. new_draft-fits input drafts id h))
    | inr (field, e) ↦ rw (checked_draft, e) (record { held = refl })
  ]

  stored-length :
      (d : AgentDraftMetadata) (ds : List AgentDraftMetadata)
      → length (stored d ds) ≡ (if any (has_draft_id d.id) ds then length ds else suc (length ds))
  stored-length d [] = refl
  stored-length d (e ∷ ds) = ground (arith, stored-length d ds)

  stored-ids :
      (d : AgentDraftMetadata) (ds : List AgentDraftMetadata) (x : String)
      → includes (draft_ids (stored d ds)) x ≡ (includes (draft_ids ds) x || d.id == x)
  stored-ids d [] x = ground (arith)
  stored-ids d (e ∷ ds) x =
      ground (arith, stored-ids d ds x, eq_iff e.id d.id, eq_iff d.id x, eq_iff e.id x)

  stored-once :
      (d : AgentDraftMetadata) (ds : List AgentDraftMetadata)
      → IsUnique (draft_ids ds)
      → IsUnique (draft_ids (stored d ds))
  stored-once d [] h = (refl, tt)
  stored-once d (e ∷ ds) h = elim (Bool-cases (e.id == d.id)) [
    | inl g ↦ rw (g) (
      subst (λ (i : String). includes (draft_ids ds) i ≡ false) ((eq_iff e.id d.id).0 g) h.0,
      h.1,
    )
    | inr g ↦ rw (g) (
      ground (arith, stored-ids d ds e.id, eq_iff e.id d.id, eq_iff d.id e.id),
      stored-once d ds h.1,
    )
  ]

  stored-hashed :
      (d : AgentDraftMetadata) (ds : List AgentDraftMetadata)
      → is_hash_option d.token_hash ≡ true
      → all (λ d. is_hash_option d.token_hash) ds ≡ true
      → all (λ d. is_hash_option d.token_hash) (stored d ds) ≡ true
  stored-hashed d [] h k = ground (arith)
  stored-hashed d (e ∷ ds) h k = ground (arith, stored-hashed d ds)

  stored-IsDrafts :
      (d : AgentDraftMetadata) (ds : List AgentDraftMetadata)
      → fits ds d ≡ true
      → IsDrafts ds
      → IsDrafts (stored d ds)
  unfolding fits
  stored-IsDrafts d ds h k = record {
    few = ground (arith, stored-length d ds, k.few);
    once = stored-once d ds k.once;
    hashed = stored-hashed d ds (ground (arith)) k.hashed;
  }

  answered-IsDrafts :
      (usage : String → UsageTotals) (drafts : List AgentDraftMetadata)
      (r : Result DraftError AgentDraftMetadata)
      → Holds (fits drafts) r
      → IsDrafts drafts
      → IsDrafts (answered known enabled providers active now usage drafts r).1
  answered-IsDrafts usage drafts (ok d) h k = stored-IsDrafts d drafts h.held k
  answered-IsDrafts usage drafts (fail e) h k = k

  -- Whatever a request asks for, if it was so before, there are at most 25 drafts afterwards, no two
  -- with the same id, and what is kept of a token is `sha256:` with 64 hexadecimal digits or nothing.
  pub upsert_agent_draft-IsDrafts :
      (usage : String → UsageTotals) (input : Dict Input) (drafts : List AgentDraftMetadata)
      → IsDrafts drafts
      → IsDrafts (upsert_agent_draft known enabled providers active now usage input drafts).1
  unfolding upsert_agent_draft
  upsert_agent_draft-IsDrafts usage input drafts h =
      answered-IsDrafts usage drafts (checked_draft known enabled providers active now input drafts)
        (checked_draft-fits input drafts h) h
