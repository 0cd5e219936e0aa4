-- ===== src/Tests/Methods.antt =====
-- Methods of class BG96 and of the interface on concrete modems.
use bg96_driver.Prelude.{
  ℕ, zero, suc, ◌≡◌, refl, ap, arith, Bool, true, false, length, CStr, c_str, strcmp_eq, none, some,
  [], ◌∷◌,
}
use bg96_driver.At.{Bg96}
use bg96_driver.Driver.Methods.{fs_size, invoke}
use bg96_driver.Driver.Methods.Restores.{Restores, invoke-Restores}
use bg96_driver.Driver.Files.{file_exists}
use bg96_driver.Driver.Files.Upload.{fs_upload_file, send_file}
use bg96_driver.Driver.Files.Transfer.{uploads_run_away}
use bg96_driver.Driver.Power.{await_ready}
use bg96_driver.Driver.Power.Ready.{await_ready_total}
use bg96_driver.Driver.Mqtt.Receive.{receive}
use bg96_driver.Driver.Mqtt.Receive.Message.{receive_quoted}
use bg96_driver.Tests.Fixtures.{silent, obliging, at_rest}

invoke-Restores_example : Restores at_rest (invoke silent (fs_size 1 2) at_rest)
invoke-Restores_example = invoke-Restores silent (fs_size 1 2) at_rest

-- A text that is too long for the counter.
abbrev endless : ℕ → CStr
endless zero = []
endless (suc n) = b'x' ∷ endless n

length-endless : (n : ℕ) → length (endless n) ≡ n
length-endless zero = refl
length-endless (suc n) = ap suc (length-endless n)

absent : (file_exists obliging (c_str "a.txt") at_rest).0 ≡ false
unfolding file_exists strcmp_eq
absent = refl

uploads_run_away_example :
    (fs_upload_file obliging (c_str "a.txt") (b'h' ∷ b'i' ∷ []) 70000 at_rest ≡ none)
    × (send_file obliging (endless 65535) (c_str "a.txt") true at_rest ≡ none)
uploads_run_away_example =
    uploads_run_away obliging (λ t c d. refl) (λ t d. refl) (c_str "a.txt") (endless 65535)
      (b'h' ∷ b'i' ∷ []) 70000 true at_rest (omega arith) (omega (arith, length-endless 65535))
      absent

await_ready_total_example : (r : Bool × Bg96 ℕ) × (await_ready silent 15001 0 at_rest ≡ some r)
await_ready_total_example =
    await_ready_total silent (λ t c d e. omega arith) 15000 0 at_rest (omega arith) (omega arith)
      (omega arith)

receive_quoted_example :
    receive (b'a' ∷ b'/' ∷ b'b' ∷ []) (b'"' ∷ b'x' ∷ b'"' ∷ [])
    ≡ some (record {
      topic = b'a' ∷ b'/' ∷ b'#' ∷ [];
      topic_len = 3;
      payload = b'x' ∷ [];
      payload_len = 2;
    })
receive_quoted_example = receive_quoted (b'a' ∷ []) (b'b' ∷ []) (b'x' ∷ []) b'"' b'"' refl
