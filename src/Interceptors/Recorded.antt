-- ===== src/Interceptors/Recorded.antt =====
-- What the journal holds after a request.
use hamyar_ops.Base.{
  ◌≡◌, refl, sym, true, false, [], ◌∷◌, ◌++◌, ℕ, All, All-last, none, some, subst, Option, String,
  Bool-cases, inl, inr,
}
use hamyar_ops.Base.Chars.{Text}
use hamyar_ops.Prisma.{Database}
use hamyar_ops.Interceptors.{Journal, record_event, audit, audit_by, journal}
use hamyar_ops.Interceptors.Events.{
  Request, Event, Outcome, answered, failed, Severity, event_of, is_recorded, response_of,
  is_mutating,
}
use hamyar_ops.Interceptors.Redaction.{IsRedacted, sanitize_body-IsRedacted}

module _ ⦃db : Database⦄ (low : Text → Text) where
  open db use {rows}

  -- The body and the answer of an event are redacted.
  pub record ShowsNoSecret (e : Event) : Type 0 where
    pub of_request : IsRedacted low e.request_body
    pub of_response : IsRedacted low e.response

  event_of-ShowsNoSecret : (r : Request) (o : Outcome) → ShowsNoSecret (event_of low r o)
  unfolding event_of
  event_of-ShowsNoSecret r o = record {
    of_request = sanitize_body-IsRedacted low r.body;
    of_response = sanitize_body-IsRedacted low (response_of o);
  }

  audit-events : (r : Request) (o : Outcome) (s : Journal) → (audit r o s).events ≡ s.events
  unfolding audit
  audit-events r (failed message status) s = refl
  audit-events r (answered answer) s = elim (Bool-cases (is_mutating r.method)) [
    | inl e ↦ rw e (by_user r.user_id)
    | inr e ↦ rw e
  ]
    where
      by_user : (u : Option String) → (audit_by r u s).events ≡ s.events
      by_user none = refl
      by_user (some user) = refl

  record_event-events :
      (r : Request) (o : Outcome) (s : Journal)
      → is_recorded r ≡ true
      → rows (record_event low r o s).events ≡ rows s.events ++ event_of low r o ∷ []
  unfolding record_event
  record_event-events r o s e = rw e (db.rows-create (event_of low r o) s.events)

  record_event-unrecorded :
      (r : Request) (o : Outcome) (s : Journal) → is_recorded r ≡ false → record_event low r o s ≡ s
  unfolding record_event
  record_event-unrecorded r o s e = rw e

  record_event-ShowsNoSecret :
      (r : Request) (o : Outcome) (s : Journal)
      → All ShowsNoSecret (rows s.events)
      → All ShowsNoSecret (rows (record_event low r o s).events)
  record_event-ShowsNoSecret r o s a = elim (Bool-cases (is_recorded r)) [
    | inl e ↦
        subst (All ShowsNoSecret) (sym (record_event-events r o s e))
          (All-last ShowsNoSecret (rows s.events) (event_of low r o) a (event_of-ShowsNoSecret r o))
    | inr e ↦
        subst (λ (t : Journal). All ShowsNoSecret (rows t.events))
          (sym (record_event-unrecorded r o s e)) a
  ]

  -- If in the recorded bodies and answers of all events nothing but the mark of redaction stands
  -- under the name of a sensitive key, at any depth, then this holds after every request too,
  -- whatever its body and its answer are. Titles, descriptions and values under other names are not
  -- spoken of.
  pub journal-ShowsNoSecret :
      (r : Request) (o : Outcome) (s : Journal)
      → All ShowsNoSecret (rows s.events)
      → All ShowsNoSecret (rows (journal low r o s).events)
  unfolding journal
  journal-ShowsNoSecret r o s a =
      subst (λ t. All ShowsNoSecret (rows t)) (sym (audit-events r o (record_event low r o s)))
        (record_event-ShowsNoSecret r o s a)

  mutating_recorded : (r : Request) → is_mutating r.method ≡ true → is_recorded r ≡ true
  unfolding is_recorded
  mutating_recorded r m = rw m

  record_event-audit_logs :
      (r : Request) (o : Outcome) (s : Journal) → (record_event low r o s).audit_logs ≡ s.audit_logs
  unfolding record_event
  record_event-audit_logs r o s = elim (Bool-cases (is_recorded r)) [ inl e ↦ rw e | inr e ↦ rw e ]

  -- A request with a method that changes something and that fails adds exactly one event, of the
  -- severity ERROR, and leaves the audit log as it was.
  pub failed_not_audited :
      (r : Request) (message : Text) (status : ℕ) (s : Journal)
      → is_mutating r.method ≡ true
      → (e : Event) × (e.severity ≡ Severity.error)
        × (rows (journal low r (failed message status) s).events ≡ rows s.events ++ e ∷ [])
        × ((journal low r (failed message status) s).audit_logs ≡ s.audit_logs)
  unfolding journal audit
  failed_not_audited r message status s m = (
    event_of low r (failed message status),
    severity_failed r message status,
    record_event-events r (failed message status) s (mutating_recorded r m),
    record_event-audit_logs r (failed message status) s,
  )
    where
      severity_failed :
          (r : Request) (message : Text) (status : ℕ)
          → (event_of low r (failed message status)).severity ≡ Severity.error
      severity_failed r message status = unfold event_of in refl
