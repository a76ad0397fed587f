-- ===== src/Graph/Render.antt =====
-- crates/ultramem-core/src/engine/graph.rs: render_block, the text for the model that answers.
use ultramem.Prelude.{
  ℤ, Text, codes, join, not, List, [], ◌∷◌, ◌++◌, map, filter, is_empty, if◌then◌else◌,
}
use ultramem.Graph.{Resolved, eq_ignore_ascii_case}

abbrev pub block_heading : Text
block_heading =
    codes "Temporal knowledge (resolved from the memory graph; dates are when each became true):\n"

-- `date` is the closure of that name: a time formatted by chrono, or a question mark.
module _ (date : ℤ → Text) where
  -- "{o} ({})"
  abbrev pub dated : Text × ℤ → Text
  dated (o, t) = o ++ (codes " (" ++ (date t ++ codes ")"))

  abbrev pub render_state : Resolved → Text
  render_state r =
      let history = map dated (filter (λ e. not (eq_ignore_ascii_case e.0 r.current)) r.timeline) in
      let subject = codes "- " ++ (r.subject ++ (codes " " ++ r.predicate)) in
      if is_empty history
      then subject
        ++ (codes ": " ++ (r.current ++ (codes " (as of " ++ (date r.current_from ++ codes ")\n"))))
      else subject
        ++ (codes ": CURRENT = "
            ++ (r.current
                ++ (codes " (since "
                    ++ (date r.current_from
                        ++ (codes "); earlier: " ++ (join (codes ", ") history ++ codes "\n"))))))

  abbrev pub render_event : Resolved → Text
  render_event r =
      codes "- "
      ++ (r.subject
          ++ (codes " "
              ++ (r.predicate
                  ++ (codes " over time: "
                      ++ (join (codes ", ") (map dated r.timeline)
                          ++ (codes " — most recent: "
                              ++ (r.current
                                  ++ (codes " (" ++ (date r.current_from ++ codes ")\n")))))))))

  unfoldable pub render_lines : List Resolved → Text
  unfolding eq_ignore_ascii_case join
  render_lines [] = []
  render_lines (r ∷ resolved) =
      (if r.singular then render_state r else render_event r) ++ render_lines resolved

  unfoldable pub render_block : List Resolved → Text
  unfolding render_lines
  render_block resolved = if is_empty resolved then [] else block_heading ++ render_lines resolved
