-- ===== src/Cocoa/Session/Epochs.antt =====
-- The epochs of crates/trelis-cocoa that members go through together.
use trelis.Common.{
  ℕ, ◌+◌, ◌^◌, ◌<◌, ◌≡◌, refl, sym, ap, ◌∙◌, arith, List, [], ◌∷◌, ◌++◌, some, length,
}
use trelis.Common.Outcome.{Outcome, ok, and_then}
use trelis.Primitives.Interface.{Primitives}
use trelis.Ratchet.Effects.{Fault}
use trelis.Cocoa.Epoch
use trelis.Cocoa.Epoch.{Epoch, EpochSecrets, checked_suc, derive_secrets}
use trelis.Cocoa.KeySchedule.{
  h5_context, app_secret_context, conf_key_context, init_secret_context, h5_epoch_secret,
  derive_app_secret, derive_conf_key, derive_init_secret,
}
use trelis.Cocoa.Session.{CocoaSession, advance_epoch}
use trelis.Cocoa.Session.Delivery.{InEpoch}

module _ (p : Primitives) where
  -- The commits of a group, one after the other: of each the root's seed and the transcript hash.
  unfoldable pub advance_epochs :
      List (List ℕ × List ℕ) → CocoaSession p → CocoaSession p × Outcome Fault (Unit {0})
  advance_epochs [] s = (s, ok tt)
  advance_epochs (commit ∷ commits) s =
      and_then (advance_epoch p commit.0 commit.1 s) (λ u t. advance_epochs commits t)

  -- The key schedule over a sequence of commits: the secret of each epoch is derived from the init
  -- secret of the one before, the root's seed and the transcript hash, and the others from it.
  abbrev pub secrets_of : List ℕ → EpochSecrets
  secrets_of secret = record {
    epoch_secret = secret;
    app_secret = p.derive_key app_secret_context secret;
    conf_key = p.derive_key conf_key_context secret;
    init_secret = p.derive_key init_secret_context secret;
  }

  abbrev pub secrets_after : EpochSecrets → List (List ℕ × List ℕ) → EpochSecrets
  secrets_after e [] = e
  secrets_after e ((delta_root, transcript_hash) ∷ commits) =
      secrets_after
        (secrets_of (p.derive_key h5_context (e.init_secret ++ (delta_root ++ transcript_hash))))
        commits

  -- The session in the next epoch.
  abbrev entered : List ℕ × List ℕ → CocoaSession p → CocoaSession p
  entered commit s = record s {
    epoch = record {
      number = s.epoch.number + 1;
      secrets = secrets_after s.epoch.secrets (commit ∷ []);
      message_counter = 0;
      transcript_hash = commit.1;
    };
    transcript_hash = commit.1;
  }

  next_number : (n : ℕ) → n + 1 < 2 ^ 64 → checked_suc n ≡ some (n + 1)
  unfolding checked_suc
  next_number n h = ground arith

  next_epoch :
      (init delta_root transcript_hash : List ℕ) (n : ℕ)
      → n + 1 < 2 ^ 64
      → Epoch.advance p init delta_root transcript_hash n
        ≡ ok (record {
          number = n + 1;
          secrets = secrets_of (p.derive_key h5_context (init ++ (delta_root ++ transcript_hash)));
          message_counter = 0;
          transcript_hash = transcript_hash;
        })
  unfolding Epoch.advance derive_secrets h5_epoch_secret derive_app_secret derive_conf_key
      derive_init_secret
  next_epoch init delta_root transcript_hash n h = rw (Epoch.advance, next_number n h) refl

  enters :
      (commit : List ℕ × List ℕ) (s : CocoaSession p)
      → s.epoch.number + 1 < 2 ^ 64
      → advance_epoch p commit.0 commit.1 s ≡ (entered commit s, ok tt)
  unfolding advance_epoch
  enters commit s h =
      rw (next_epoch s.epoch.secrets.init_secret commit.0 commit.1 s.epoch.number h) refl

  -- What commits lead to from `s`.
  record IsAfter (commits : List (List ℕ × List ℕ)) (s s' : CocoaSession p) : Type 0 where
    reached : advance_epochs commits s ≡ (s', ok tt)
    number : s'.epoch.number ≡ s.epoch.number + length commits
    secrets : s'.epoch.secrets ≡ secrets_after s.epoch.secrets commits
    group : s'.group_id ≡ s.group_id
    counter : s.epoch.message_counter ≡ 0 → s'.epoch.message_counter ≡ 0

  runs_commits :
      (commits : List (List ℕ × List ℕ)) (s : CocoaSession p)
      → s.epoch.number + length commits < 2 ^ 64
      → (s' : CocoaSession p) × IsAfter commits s s'
  unfolding advance_epochs
  runs_commits [] s h = (
    s,
    record { reached = refl; number = omega arith; secrets = refl; group = refl; counter = λ e. e },
  )
  runs_commits (commit ∷ commits) s h =
      let rest = runs_commits commits (entered commit s) (omega arith) in
      (
        rest.0,
        record {
          reached = rw (enters commit s (omega arith)) rest.1.reached;
          number = omega (arith, rest.1.number);
          secrets = rest.1.secrets;
          group = rest.1.group;
          counter = λ e. rest.1.counter refl;
        },
      )

  -- Members who are in one epoch and process the same commits, one or more, are in one epoch again,
  -- and it is the epoch of the key schedule: the number has gone up by one for each commit, each
  -- epoch secret is derived from the init secret before it, the commit's root seed and its
  -- transcript hash, the other secrets are derived from the epoch secret, and the counter starts at
  -- 0. The epoch number stays below 2^64, so that no call panics.
  pub advance_epochs_lem :
      (commit : List ℕ × List ℕ) (commits : List (List ℕ × List ℕ)) (s t : CocoaSession p)
      → InEpoch s t
      → s.epoch.number + length (commit ∷ commits) < 2 ^ 64
      → (s' t' : CocoaSession p) × (advance_epochs (commit ∷ commits) s ≡ (s', ok tt))
        × (advance_epochs (commit ∷ commits) t ≡ (t', ok tt))
        × InEpoch s' t'
        × (s'.epoch.number ≡ s.epoch.number + length (commit ∷ commits))
        × (s'.epoch.secrets ≡ secrets_after s.epoch.secrets (commit ∷ commits))
        × (s'.epoch.message_counter ≡ 0)
  unfolding advance_epochs
  advance_epochs_lem commit commits s t i h =
      let of_s = runs_commits commits (entered commit s) (omega arith) in
      let of_t = runs_commits commits (entered commit t) (omega (arith, i.same_number)) in
      (
        of_s.0,
        of_t.0,
        rw (enters commit s (omega arith)) of_s.1.reached,
        rw (enters commit t (omega (arith, i.same_number))) of_t.1.reached,
        record {
          same_group = of_s.1.group ∙ (i.same_group ∙ sym of_t.1.group);
          same_number = omega (arith, of_s.1.number, of_t.1.number, i.same_number);
          same_secrets =
              of_s.1.secrets
              ∙ (ap (λ (e : EpochSecrets). secrets_after e (commit ∷ commits)) i.same_secrets
                  ∙ sym of_t.1.secrets);
        },
        omega (arith, of_s.1.number),
        of_s.1.secrets,
        of_s.1.counter refl,
      )
