-- ===== src/Reconcile/Template/Examples.antt =====
-- The resolution of a template with a context variable and an unknown import.
use text.Mathlib.TextBridge.{of_list}
use nclav.Base.{
  ◌≡◌, refl, none, some, List, [], ◌∷◌, length, ◌+◌, arith, if◌then◌else◌, ◌==◌, string_eq,
}
use nclav.Base.Texts.{Text, chars}
use nclav.Reconcile.Template.{Values, resolve_loop, resolve_template, opening}
use nclav.Reconcile.Template.Rendering.{render, IsPlain, Apart, resolve_template-render}
use nclav.Reconcile.Template.Termination.{resolve_loop_total}

abbrev values : Values
values = record {
  import_value = λ alias key. none;
  context_value = λ token. if token == "nclav_project_id" then some "p-1" else none;
}

abbrev pieces : List (Text × Text)
pieces =
    (chars "{\"id\": \"", chars " nclav_project_id ")
    ∷ (chars "\", \"db\": \"", chars "db.host")
    ∷ []

plain : IsPlain pieces
plain = ground arith

end : Apart opening (chars "\"}")
end = (refl, tt)

resolve_template-render_example :
    resolve_template values "{\"id\": \"{{ nclav_project_id }}\", \"db\": \"{{db.host}}\"}"
    ≡ of_list (render values pieces (chars "\"}"))
resolve_template-render_example =
    resolve_template-render values "{\"id\": \"{{ nclav_project_id }}\", \"db\": \"{{db.host}}\"}"
      pieces (chars "\"}") refl plain end

resolve_loop_total_example :
    (t : Text) × (resolve_loop values (length (chars "a{{b}}") + 1) (chars "a{{b}}") 0 ≡ some t)
resolve_loop_total_example = resolve_loop_total values (chars "a{{b}}")
