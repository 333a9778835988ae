-- ===== src/Gates/Examples/Modules.antt =====
-- A run of the gate over modules, and the theorem at a concrete case.
use purepy.Base.{ℕ, ◌*◌, ◌<◌, ◌⊎◌, ◌↔◌, inl, inr, none, true, [], ◌∷◌, codes, ◌≡◌, refl}
use purepy.Base.Int.{pos}
use purepy.Base.Json.{Json, Items, Fields, arr, cons, nil, text, obj, field, end, boolean, integer}
use purepy.Gates.Modules.Compare.{Call, ModuleCase}
use purepy.Gates.Modules.Coroutine.{
  Sent, completed, suspended, coroutine, returned, max_suspensions, finish_coroutine, Completes,
}
use purepy.Gates.Modules.Coroutine.Budget.{finish_coroutine_iff}

abbrev pub read_event : Items (Unit {0})
read_event = cons (arr (cons (text (codes "read")) (cons (integer (pos 1)) nil))) nil

-- async def probe() -> fixture.Token | None
abbrev pub token : Json (Unit {0})
token = obj (
    field (codes "type") (text (codes "external")) (
      field (codes "name") (text (codes "fixture.Token"))
        (field (codes "value") (text (codes "t1")) end)))

abbrev pub token_case : ModuleCase (Unit {0})
token_case = record {
  name = codes "token";
  fingerprint = codes "f0";
  kind = codes "async";
  classification = codes "effectful";
  returns = codes "fixture.Token | None";
  expected_codes = [];
  calls = record { expected = token; exception = none; events = read_event } ∷ [];
}

abbrev pub token_report : Fields (Unit {0})
token_report = field (codes "schema") (integer (pos 2)) (
    field (codes "verifier_version") (text (codes "0.1")) (
      field (codes "ok") (boolean true) (
        field (codes "diagnostics") (arr nil) (
          field (codes "functions")
            (arr (
              cons
                (obj (
                  field (codes "name") (text (codes "main.probe")) (
                    field (codes "returns")
                      (obj (
                        field (codes "kind") (text (codes "optional")) (
                          field (codes "element")
                            (obj (
                              field (codes "kind") (text (codes "value"))
                                (field (codes "name") (text (codes "fixture.Token")) end)))
                            end)))
                      (field (codes "kind") (text (codes "async"))
                        (field (codes "classification") (text (codes "effectful")) end)))))
                nil))
            end))))

abbrev pub token_result : Fields (Unit {0})
token_result = field (codes "name") (text (codes "token")) (
    field (codes "fingerprint") (text (codes "f0")) (
      field (codes "outcomes")
        (arr (
          cons
            (obj (
              field (codes "index") (integer (pos 0))
                (field (codes "value") token (field (codes "events") (arr read_event) end))))
            nil))
        end))

-- `double` of the fixture: it suspends once, and completes with twice its argument.
abbrev double : ℕ ⊎ ℕ → Sent (ℕ ⊎ ℕ) ℕ (Unit {0})
double (inl n) = suspended true (inr n)
double (inr n) = completed (2 * n)

double_finished : finish_coroutine double (coroutine (inl 5)) ≡ returned 10
unfolding finish_coroutine purepy.Gates.Modules.Coroutine.drive
double_finished = refl

finish_coroutine_iff_example :
    (finish_coroutine double (coroutine (inl 5)) ≡ returned 10)
    ↔ ((n : ℕ) × (n < max_suspensions) × Completes double 10 n (inl 5))
finish_coroutine_iff_example = finish_coroutine_iff double 10 (inl 5)
