-- ===== src/Infra/Ansible/Seeding.antt =====
-- `seedBuiltInPlaybooks` of ansible.service.ts, which runs at each start. The built-in playbooks are
-- an argument.
use hamyar_ops.Base.{
  String, ◌≡◌, refl, ap, ◌∙◌, Bool, true, ◌||◌, inl, inr, Bool-cases, some, List, [], ◌∷◌, ◌++◌,
  if◌then◌else◌, any, All, arith,
}
use hamyar_ops.Base.Chars.{Text, text_eq}
use hamyar_ops.Base.Chars.Lines.{text_eq_self}
use hamyar_ops.Prisma.{Database}
use hamyar_ops.Bull.{JobQueue}
use hamyar_ops.Infra.Processes.{Machine}
use hamyar_ops.Infra.Ansible.{Playbook, Ansible}

pub record BuiltIn : Type 0 where
  pub name : Text
  pub description : Text
  pub content : Text

abbrev pub playbook_of : String → BuiltIn → Playbook
playbook_of new_id b = record {
  id = new_id;
  name = b.name;
  description = some b.description;
  content = b.content;
  target_tags = [];
  variables = [];
  built_in = true;
}

any-append :
    {A : Type 0} (p : A → Bool) (xs ys : List A) → any p (xs ++ ys) ≡ (any p xs || any p ys)
any-append p [] ys = refl
any-append p (x ∷ xs) ys = ground (arith, any-append p xs ys)

module _ ⦃db : Database⦄ ⦃bull : JobQueue⦄ ⦃machine : Machine⦄ (new_id : Text → String) where
  open db use {rows, create}

  -- There is a playbook of this name.
  abbrev pub is_there : Text → Ansible → Bool
  is_there name s = any (λ (p : Playbook). text_eq p.name name) (rows s.playbooks)

  abbrev pub seed_one : BuiltIn → Ansible → Ansible
  seed_one b s =
      if is_there b.name s
      then s
      else record s { playbooks = create (playbook_of (new_id b.name) b) s.playbooks }

  unfoldable pub seed_built_in_playbooks : List BuiltIn → Ansible → Ansible
  seed_built_in_playbooks [] s = s
  seed_built_in_playbooks (b ∷ bs) s = seed_built_in_playbooks bs (seed_one b s)

  is_there-create :
      (name : Text) (p : Playbook) (s : Ansible)
      → is_there name (record s { playbooks = create p s.playbooks })
        ≡ (is_there name s || text_eq p.name name)
  is_there-create name p s =
      ap (any (λ (q : Playbook). text_eq q.name name)) (db.rows-create p s.playbooks)
      ∙ any-append (λ (q : Playbook). text_eq q.name name) (rows s.playbooks) (p ∷ [])
      ∙ ground arith

  is_there-seed_one :
      (name : Text) (b : BuiltIn) (s : Ansible)
      → is_there name s ≡ true
      → is_there name (seed_one b s) ≡ true
  is_there-seed_one name b s h = elim (Bool-cases (is_there b.name s)) [
    | inl e ↦ ground (arith, e, h)
    | inr e ↦ ground (arith, e, h, is_there-create name (playbook_of (new_id b.name) b) s)
  ]

  seeded : (b : BuiltIn) (s : Ansible) → is_there b.name (seed_one b s) ≡ true
  seeded b s = elim (Bool-cases (is_there b.name s)) [
    | inl e ↦ ground (arith, e)
    | inr e ↦
        ground
          (arith, e, is_there-create b.name (playbook_of (new_id b.name) b) s, text_eq_self b.name)
  ]

  still_there :
      (name : Text) (bs : List BuiltIn) (s : Ansible)
      → is_there name s ≡ true
      → is_there name (seed_built_in_playbooks bs s) ≡ true
  unfolding seed_built_in_playbooks
  still_there name [] s h = h
  still_there name (b ∷ bs) s h = still_there name bs (seed_one b s) (is_there-seed_one name b s h)

  each_there :
      (bs : List BuiltIn) (s : Ansible)
      → All (λ (b : BuiltIn). is_there b.name (seed_built_in_playbooks bs s) ≡ true) bs
  unfolding seed_built_in_playbooks
  each_there [] s = tt
  each_there (b ∷ bs) s =
      (still_there b.name bs (seed_one b s) (seeded b s), each_there bs (seed_one b s))

  unchanged :
      (bs : List BuiltIn) (s : Ansible)
      → All (λ (b : BuiltIn). is_there b.name s ≡ true) bs
      → seed_built_in_playbooks bs s ≡ s
  unfolding seed_built_in_playbooks
  unchanged [] s a = refl
  unchanged (b ∷ bs) s (h, a) =
      ap
        (λ c. seed_built_in_playbooks bs (
          if c
          then s
          else record s { playbooks = create (playbook_of (new_id b.name) b) s.playbooks }))
        h
      ∙ unchanged bs s a

  -- A start of the service leaves a playbook of each built-in name, and seeding again changes
  -- nothing.
  pub seed_twice :
      (bs : List BuiltIn) (s : Ansible)
      → All (λ (b : BuiltIn). is_there b.name (seed_built_in_playbooks bs s) ≡ true) bs
        × (seed_built_in_playbooks bs (seed_built_in_playbooks bs s) ≡ seed_built_in_playbooks bs s)
  seed_twice bs s = (each_there bs s, unchanged bs (seed_built_in_playbooks bs s) (each_there bs s))
