-- ===== src/Oton/Accepted.antt =====
-- src/utils/operandi_utils/oton/ocrd_validator.py: which workflows the validator accepts.
use operandi.Common.{
  true, false, Option, none, some, List, [], ◌∷◌, ◌++◌, Text, codes, Result, done, raise, and_then,
  Result-cases, ==_iff, text_eq, contains, occurs, split_at, ◌≡◌, sym, ◌↔◌, ◌⊎◌, inl, inr, arith,
  append_assoc, append-nil, subst,
}
use operandi.Oton.Arguments.{Ocrd, ProcessorCallArguments}
use operandi.Oton.Validator.{
  group_allowed, check_groups, groups_of, validate_processor_params, validate_next_processors,
  validate_all_processors,
}

-- The groups that an argument names: none where it is not given.
abbrev pub named_groups : Option Text → List Text
unfolding split_at
named_groups none = []
named_groups (some value) = split_at b',' value

abbrev pub IsGiven : Option Text → Type 0
IsGiven none = ⊥
IsGiven (some value) = Unit {0}

-- `g` is among the groups.
abbrev pub IsAmong : Text → List Text → Type 0
IsAmong g [] = ⊥
IsAmong g (h ∷ hs) = (g ≡ h) ⊎ IsAmong g hs

-- One of the processors writes `g`.
abbrev pub IsWritten : Text → List ProcessorCallArguments → Type 0
IsWritten g [] = ⊥
IsWritten g (p ∷ ps) = IsAmong g (named_groups p.output_file_grps) ⊎ IsWritten g ps

-- `g` need not be written before it is read.
abbrev pub IsExempt : Text → Type 0
unfolding occurs
IsExempt g = (occurs (codes "GT") g ≡ true) ⊎ (occurs (codes "OCR-D-OCR") g ≡ true)

-- `P` of each group.
abbrev pub AllGroups : (Text → Type 0) → List Text → Type 0
AllGroups P [] = Unit {0}
AllGroups P (g ∷ gs) = P g × AllGroups P gs

module _ (ocrd : Ocrd) where
  -- The schema of its tool accepts the parameters of a processor.
  abbrev pub IsConfigured : ProcessorCallArguments → Type 0
  IsConfigured p = ocrd.validates (ocrd.ocrd_all_json p.executable) p.parameters ≡ done true

  -- After `before`, each processor is configured, names its groups, and reads only what one of
  -- those before it writes, or what is exempt.
  abbrev pub IsFed : List ProcessorCallArguments → List ProcessorCallArguments → Type 0
  IsFed before [] = Unit {0}
  IsFed before (p ∷ ps) =
      IsConfigured p
      × IsGiven p.input_file_grps
      × IsGiven p.output_file_grps
      × AllGroups (λ g. IsWritten g before ⊎ IsExempt g) (named_groups p.input_file_grps)
      × IsFed (before ++ p ∷ []) ps

  -- A first processor that is configured and names what it writes, and others that are fed.
  abbrev pub IsWorkflow : List ProcessorCallArguments → Type 0
  IsWorkflow [] = ⊥
  IsWorkflow (p ∷ ps) = IsConfigured p × IsGiven p.output_file_grps × IsFed (p ∷ []) ps

abbrev written_by : List ProcessorCallArguments → List Text
written_by [] = []
written_by (p ∷ ps) = named_groups p.output_file_grps ++ written_by ps

-- Python's `in`.
contains_iff : (g : Text) (gs : List Text) → (contains gs g ≡ true) ↔ IsAmong g gs
contains_iff g [] = ground arith
contains_iff g (h ∷ hs) = let ih = contains_iff g hs in let same = ==_iff g h in ground arith

IsAmong-append :
    (g : Text) (gs hs : List Text) → IsAmong g (gs ++ hs) ↔ (IsAmong g gs ⊎ IsAmong g hs)
IsAmong-append g [] hs = ground arith
IsAmong-append g (x ∷ gs) hs = let ih = IsAmong-append g gs hs in ground arith

written_by_iff :
    (g : Text) (ps : List ProcessorCallArguments) → IsAmong g (written_by ps) ↔ IsWritten g ps
written_by_iff g [] = ground arith
written_by_iff g (p ∷ ps) =
    let ih = written_by_iff g ps in
    let both = IsAmong-append g (named_groups p.output_file_grps) (written_by ps) in ground arith

written_by-append :
    (ps : List ProcessorCallArguments) (p : ProcessorCallArguments)
    → written_by (ps ++ p ∷ []) ≡ written_by ps ++ named_groups p.output_file_grps
written_by-append [] p = append-nil (named_groups p.output_file_grps)
written_by-append (q ∷ ps) p = rw (written_by-append ps p) (
    sym (
      append_assoc (named_groups q.output_file_grps) (written_by ps)
        (named_groups p.output_file_grps)))

group_allowed_iff :
    (before : List ProcessorCallArguments) (g : Text)
    → (group_allowed (written_by before) g ≡ true) ↔ (IsWritten g before ⊎ IsExempt g)
unfolding group_allowed occurs
group_allowed_iff before g =
    let known = contains_iff g (written_by before) in
    let written = written_by_iff g before in ground arith

check_groups_iff :
    (before : List ProcessorCallArguments) (gs : List Text)
    → (check_groups (written_by before) gs ≡ done tt)
      ↔ AllGroups (λ g. IsWritten g before ⊎ IsExempt g) gs
check_groups_iff before [] = ground arith
check_groups_iff before (g ∷ gs) =
    let ih = check_groups_iff before gs in let here = group_allowed_iff before g in ground arith

and_then_iff {ℓ} :
    {A : Type ℓ} (r : Result (Unit {0})) (m : Result A) (a : A)
    → (and_then r (λ _. m) ≡ done a) ↔ ((r ≡ done tt) × (m ≡ done a))
and_then_iff (done u) m a = ground arith
and_then_iff (raise e) m a = ground arith

groups_of_iff {ℓ} :
    {A : Type ℓ} (o : Option Text) (f : List Text → Result A) (a : A)
    → (and_then (groups_of o) f ≡ done a) ↔ (IsGiven o × (f (named_groups o) ≡ done a))
unfolding groups_of split_at
groups_of_iff none f a = ground arith
groups_of_iff (some value) f a = ground arith

module _ (ocrd : Ocrd) where
  params_lem :
      (p : ProcessorCallArguments)
      → (validate_processor_params ocrd p ≡ done tt) ↔ IsConfigured ocrd p
  unfolding validate_processor_params
  params_lem p =
      elim (Result-cases (ocrd.validates (ocrd.ocrd_all_json p.executable) p.parameters)) [
        | inl (e, r) ↦ ground arith
        | inr (true, r) ↦ ground arith
        | inr (false, r) ↦ ground arith
      ]

  next_iff :
      (before ps : List ProcessorCallArguments)
      → (validate_next_processors ocrd (written_by before) ps ≡ done tt) ↔ IsFed ocrd before ps
  unfolding validate_next_processors
  next_iff before [] = ground arith
  next_iff before (p ∷ ps) =
      let inputs = named_groups p.input_file_grps in
      let rest =
        λ (outputs : List Text). validate_next_processors ocrd (written_by before ++ outputs) ps in
      let writes = and_then (groups_of p.output_file_grps) rest in
      let reads =
        λ (gs : List Text). and_then (check_groups (written_by before) gs) (λ _. writes) in
      let a =
        and_then_iff (validate_processor_params ocrd p)
          (and_then (groups_of p.input_file_grps) reads) tt in
      let b = groups_of_iff p.input_file_grps reads tt in
      let c = and_then_iff (check_groups (written_by before) inputs) writes tt in
      let d = groups_of_iff p.output_file_grps rest tt in
      let configured = params_lem p in
      let allowed = check_groups_iff before inputs in
      let ih : (validate_next_processors ocrd (written_by before ++ named_groups p.output_file_grps)
              ps
            ≡ done tt)
          ↔ IsFed ocrd (before ++ p ∷ []) ps =
        subst
          (λ previous.
            (validate_next_processors ocrd previous ps ≡ done tt)
            ↔ IsFed ocrd (before ++ p ∷ []) ps)
          (written_by-append before p) (next_iff (before ++ p ∷ []) ps) in
      ground arith

  -- The validator accepts a list of processors exactly when it is a workflow: there is a first
  -- processor, which is configured and names the groups it writes; each other processor is
  -- configured and names what it reads and writes; and each group that it reads is one that a
  -- processor before it writes, or one with "GT" or "OCR-D-OCR" in its name.
  pub validate_all_processors_iff :
      (ps : List ProcessorCallArguments)
      → (validate_all_processors ocrd ps ≡ done tt) ↔ IsWorkflow ocrd ps
  unfolding validate_all_processors
  validate_all_processors_iff [] = ground arith
  validate_all_processors_iff (p ∷ ps) =
      let rest = λ (outputs : List Text). validate_next_processors ocrd outputs ps in
      let a =
        and_then_iff (validate_processor_params ocrd p)
          (and_then (groups_of p.output_file_grps) rest) tt in
      let b = groups_of_iff p.output_file_grps rest tt in
      let configured = params_lem p in
      let fed : (validate_next_processors ocrd (named_groups p.output_file_grps) ps ≡ done tt)
          ↔ IsFed ocrd (p ∷ []) ps =
        subst
          (λ previous.
            (validate_next_processors ocrd previous ps ≡ done tt) ↔ IsFed ocrd (p ∷ []) ps)
          (append-nil (named_groups p.output_file_grps)) (next_iff (p ∷ []) ps) in
      ground arith
