-- ===== src/Validation/Reports.antt =====
-- The counts of a report.
use haru_quant_cbot.Prelude.{
  refl, nat_beq, length-keep, ◌∙◌, count_if-pos, sym, any_of_iff, arith, Bool, In, ◌∷◌, [], length,
  ◌↔◌, ◌+◌, true, ◌≡◌, if◌then◌else◌, count_if, List,
}
use haru_quant_cbot.Validation.{
  error, ValidationReport, warning, get_issues_by_severity, critical_issues, has_critical_issues,
  info, critical, clean, total_issues, ValidationIssue, IssueSeverity, severity_beq, severity_count,
}

one_severity :
    (s : IssueSeverity)
    → (if severity_beq s info then 1 else 0)
        + (if severity_beq s warning then 1 else 0)
        + (if severity_beq s error then 1 else 0)
        + (if severity_beq s critical then 1 else 0)
      ≡ 1
unfolding severity_beq
one_severity info = refl
one_severity warning = refl
one_severity error = refl
one_severity critical = refl

counts-add :
    (issues : List ValidationIssue)
    → count_if (λ i. severity_beq i.severity info) issues
        + count_if (λ i. severity_beq i.severity warning) issues
        + count_if (λ i. severity_beq i.severity error) issues
        + count_if (λ i. severity_beq i.severity critical) issues
      ≡ length issues
counts-add [] = refl
counts-add (i ∷ issues) = ground (arith, one_severity i.severity, counts-add issues)

critical-only : (s : IssueSeverity) → (severity_beq s critical ≡ true) ↔ (s ≡ critical)
unfolding severity_beq
critical-only info = (λ h. cc, λ h. cc)
critical-only warning = (λ h. cc, λ h. cc)
critical-only error = (λ h. cc, λ h. cc)
critical-only critical = (λ h. refl, λ h. refl)

no_issues : (issues : List ValidationIssue) → (nat_beq (length issues) 0 ≡ true) ↔ (issues ≡ [])
no_issues [] = (λ _. refl, λ _. refl)
no_issues (i ∷ issues) = (λ h. ground (arith, h), λ h. cc)

-- The four counts add up to the number of issues; a report is clean exactly if it has none; it has
-- critical issues exactly if one of its issues is critical, and lists as many as it counts.
pub report-counts :
    (report : ValidationReport)
    → (severity_count info report
          + severity_count warning report
          + severity_count error report
          + severity_count critical report
        ≡ total_issues report)
      × ((clean report ≡ true) ↔ (report.issues ≡ []))
      × ((has_critical_issues report ≡ true)
          ↔ ((i : ValidationIssue) × In i report.issues × (i.severity ≡ critical)))
      × (length (critical_issues report) ≡ severity_count critical report)
unfolding severity_count total_issues clean has_critical_issues critical_issues
    get_issues_by_severity
report-counts report =
    let p : ValidationIssue → Bool = λ i. severity_beq i.severity critical in
    (
      counts-add report.issues,
      no_issues report.issues,
      (
        λ h.
            let (i, j, q) =
              (any_of_iff p report.issues).0 (sym (count_if-pos p report.issues) ∙ h) in
            (i, j, (critical-only i.severity).0 q),
        λ h.
            count_if-pos p report.issues
            ∙ (any_of_iff p report.issues).1 (h.0, h.1, (critical-only h.0.severity).1 h.2),
      ),
      length-keep p report.issues,
    )
