-- ===== src/Audit/Outputs.antt =====
-- AuditFeature::validateOptions and prepare: what checked specs give.
use open_arango_dbcore.Prelude.{
  ◌≡◌, refl, sym, ap, ◌∙◌, Bool, true, false, Option, none, some, List, [], ◌∷◌, ◌++◌,
  if◌then◌else◌, drop, Str, inl, inr, Bool-cases, append_assoc, append_nil, arith,
}
use open_arango_dbcore.Audit.{FileOutput, AuditLogger, new_logger, add_output}
use open_arango_dbcore.Audit.Feature.{
  AuditFeature, is_file_spec, is_syslog_spec, validate_options, add_outputs, prepare,
}

abbrev file_entry : Bool → Str → List FileOutput
file_entry is_file spec =
    if is_file
    then record { path = drop 7 spec; is_open = true; lines = []; flushed = [] } ∷ []
    else []

abbrev facility_entry : Bool → Str → List Str
facility_entry is_file spec = if is_file then [] else drop 9 spec ∷ []

-- The files and the facilities that the specs name, in their order.
abbrev pub files_of : List Str → List FileOutput
files_of [] = []
files_of (spec ∷ specs) = file_entry (is_file_spec spec) spec ++ files_of specs

abbrev pub facilities_of : List Str → List Str
facilities_of [] = []
facilities_of (spec ∷ specs) = facility_entry (is_file_spec spec) spec ++ facilities_of specs

abbrev pub AllOpen : (Str → Bool) → List Str → Type 0
AllOpen opens [] = Unit {0}
AllOpen opens (spec ∷ specs) =
    (is_file_spec spec ≡ true → opens (drop 7 spec) ≡ true) × AllOpen opens specs

abbrev with_outputs : AuditLogger → List FileOutput → List Str → AuditLogger
with_outputs l files facilities = record l {
  file_outputs = l.file_outputs ++ files;
  syslog_outputs = l.syslog_outputs ++ facilities;
}

-- The loop's body by its tests.
abbrev outputs_from :
    (Str → Bool) → Str → List Str → AuditLogger → Bool → Bool → Bool → Option AuditLogger
outputs_from opens spec specs l is_file is_syslog opened =
    let added =
      if is_file
      then (if opened
          then some (record l {
            file_outputs =
                l.file_outputs
                ++ record { path = drop 7 spec; is_open = true; lines = []; flushed = [] } ∷ [];
          })
          else none)
      else if is_syslog
      then some (record l { syslog_outputs = l.syslog_outputs ++ drop 9 spec ∷ [] })
      else some l in
    elim added [ none ↦ none | some l' ↦ add_outputs opens specs l' ]

add_outputs_by :
    (opens : Str → Bool) (spec : Str) (specs : List Str) (l : AuditLogger)
    → add_outputs opens (spec ∷ specs) l
      ≡ outputs_from opens spec specs l
          (is_file_spec spec)
          (is_syslog_spec spec)
          (opens (drop 7 spec))
unfolding add_outputs add_output
add_outputs_by opens spec specs l = refl

validated :
    (spec : Str) (specs : List Str)
    → validate_options (spec ∷ specs) ≡ true
    → (is_file_spec spec ≡ false → is_syslog_spec spec ≡ true) × (validate_options specs ≡ true)
unfolding validate_options
validated spec specs valid = ground arith

add_outputs_in_order :
    (opens : Str → Bool) (specs : List Str) (l : AuditLogger)
    → validate_options specs ≡ true
    → AllOpen opens specs
    → add_outputs opens specs l ≡ some (with_outputs l (files_of specs) (facilities_of specs))
unfolding add_outputs
add_outputs_in_order opens [] l valid openable = λ i. some (record l {
  file_outputs = sym (append_nil l.file_outputs) i;
  syslog_outputs = sym (append_nil l.syslog_outputs) i;
})
add_outputs_in_order opens (spec ∷ specs) l valid (here, openable) =
    let (scheme, valid_rest) = validated spec specs valid in
    elim (Bool-cases (is_file_spec spec)) [
      | inl is_file ↦
          let entry = file_entry true spec in
          add_outputs_by opens spec specs l
          ∙ (λ i.
              outputs_from opens spec specs l (is_file i) (is_syslog_spec spec) (here is_file i))
          ∙ add_outputs_in_order opens specs (record l { file_outputs = l.file_outputs ++ entry })
              valid_rest openable
          ∙ (λ i. some (record l {
            file_outputs = append_assoc l.file_outputs entry (files_of specs) i;
            syslog_outputs = l.syslog_outputs ++ facilities_of specs;
          }))
          ∙ (λ i. some (
              with_outputs l (file_entry (sym is_file i) spec ++ files_of specs)
                (facility_entry (sym is_file i) spec ++ facilities_of specs)))
      | inr other ↦
          let entry = facility_entry false spec in
          add_outputs_by opens spec specs l
          ∙ (λ i. outputs_from opens spec specs l (other i) (scheme other i) (opens (drop 7 spec)))
          ∙ add_outputs_in_order opens specs
              (record l { syslog_outputs = l.syslog_outputs ++ entry }) valid_rest openable
          ∙ (λ i. some (record l {
            file_outputs = l.file_outputs ++ files_of specs;
            syslog_outputs = append_assoc l.syslog_outputs entry (facilities_of specs) i;
          }))
          ∙ (λ i. some (
              with_outputs l (file_entry (sym other i) spec ++ files_of specs)
                (facility_entry (sym other i) spec ++ facilities_of specs)))
    ]

-- Specs that pass validateOptions become outputs: if all their files open, prepare gives the feature
-- a logger with one output for each spec, the files and the facilities each in the specs' order.
pub prepare-validate_options :
    (opens : Str → Bool) (f : AuditFeature)
    → validate_options f.output_specs ≡ true
    → AllOpen opens f.output_specs
    → prepare opens f
      ≡ some (record f {
        logger = some (record new_logger {
          file_outputs = files_of f.output_specs;
          syslog_outputs = facilities_of f.output_specs;
        });
      })
unfolding prepare new_logger
prepare-validate_options opens f valid openable =
    let prepared : Option AuditLogger → Option AuditFeature =
      λ made. elim made [ none ↦ none | some l ↦ some (record f { logger = some l }) ] in
    ap prepared (add_outputs_in_order opens f.output_specs new_logger valid openable)
