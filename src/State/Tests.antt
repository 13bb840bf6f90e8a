-- ===== src/State/Tests.antt =====
-- Runs of the store, and its theorems at concrete inputs.
use edgehost.Prelude.{
  ℕ, ◌≡◌, ◌≢◌, arith, sym, ◌∙◌, ◌⊎◌, refl, Bool, true, false, min, replicate, [], ◌∷◌, ◌++◌, none,
  some, List,
}
use edgehost.Prelude.Table.{find_index}
use edgehost.Prelude.Text.{Bytes, text, str_eq, bounded}
use edgehost.Config.{defaults}
use edgehost.State.Check.{key_valid, json_ok}
use edgehost.State.Namespace.{Ns, find_entry, find_free, store}
use edgehost.State.Namespace.Listing.{Listing}
use edgehost.State.{
  Store, StoreConfig, ok, ns_full, bad_key, bad_json, enabled, find_ns, ns_at, list_cap,
  create_with_config, register, set_enabled, apply_config, put, get, delete, list,
}
use edgehost.State.Invariant.{IsValid}
use edgehost.State.Register.{Switched, set_enabled-Switched, register-IsValid}
use edgehost.State.Put.{PutOutcome, put-PutOutcome}
use edgehost.State.Get.{get_lem, get_reply, get-put}
use edgehost.State.Delete.{DeleteOutcome, delete-DeleteOutcome}
use edgehost.State.Keys.{list-Listing}
use edgehost.State.View.{flag}
use edgehost.State.Create.{
  Created, create_with_config-Created, initial, no_namespaces, no_namespaces-IsValid,
}
use edgehost.State.Flags.{Set, settings, apply_config-Set, chosen}
use edgehost.State.Run.{puts, deletes, switches, configures, run, run-create_with_config-IsValid}

abbrev small : StoreConfig
small = record { max_keys_per_ns = 1; max_value_bytes = 4 }

-- One namespace with room for one key.
one_ns : Store
unfolding register
one_ns = (register (no_namespaces small) (text "net.core") true true).1

one_ns-IsValid : IsValid one_ns
unfolding one_ns
one_ns-IsValid = register-IsValid (text "net.core") true true (no_namespaces-IsValid small)

abbrev core : Bytes
core = text "net.core"

abbrev five : ℕ
five = 5

after_put : Store
unfolding put
after_put = (put one_ns (some core) (some (text "a")) (some (text "12"))).1

after_put-IsValid : IsValid after_put
unfolding after_put
after_put-IsValid = (put-PutOutcome core (text "a") (text "12") one_ns-IsValid).valid

put_is_ok : (put one_ns (some core) (some (text "a")) (some (text "12"))).0 ≡ ok
unfolding one_ns register put find_ns store find_entry find_free key_valid json_ok find_index str_eq
    bounded
put_is_ok = refl

second_key_is_refused : (put after_put (some core) (some (text "b")) (some (text "3"))).0 ≡ ns_full
unfolding after_put one_ns register put find_ns store find_entry find_free key_valid json_ok
    find_index str_eq bounded
second_key_is_refused = refl

text_is_refused : (put after_put (some core) (some (text "a")) (some (text "x"))).0 ≡ bad_json
unfolding after_put one_ns register put find_ns store find_entry find_free key_valid json_ok
    find_index str_eq bounded
text_is_refused = refl

key_of_128_is_refused :
    (put one_ns (some core) (some (replicate 128 b'a')) (some (text "12"))).0 ≡ bad_key
unfolding one_ns register put find_ns store find_entry find_free key_valid json_ok find_index str_eq
    bounded
key_of_128_is_refused = refl

last_byte_is_cut :
    get after_put (some core) (some (text "a")) (some 2)
    ≡ record { code = ok; written = text "1" ++ (0 ∷ []); out_len = some 2 }
unfolding after_put one_ns register put get find_ns store find_entry find_free key_valid json_ok
    find_index str_eq bounded
last_byte_is_cut = refl

unknown_name_is_enabled :
    enabled (set_enabled after_put (some (text "ext.a")) true true).1 (some (text "ext.a")) ≡ true
unfolding after_put one_ns register put set_enabled enabled find_ns store find_entry find_free
    key_valid json_ok find_index str_eq bounded
unknown_name_is_enabled = refl

put-PutOutcome_example :
    PutOutcome one_ns core
      (text "a")
      (text "12")
      (put one_ns (some core) (some (text "a")) (some (text "12")))
put-PutOutcome_example = put-PutOutcome core (text "a") (text "12") one_ns-IsValid

get_lem_example :
    get after_put (some core) (some (text "a")) (some 2)
    ≡ get_reply (ns_at after_put core) (text "a") (some 2)
get_lem_example = get_lem core (text "a") (some 2) after_put-IsValid

get-put_example :
    get
      (put one_ns (some core) (some (text "a")) (some (text "12"))).1
      (some core)
      (some (text "a"))
      (some 3)
    ≡ record { code = ok; written = text "12" ++ (0 ∷ []); out_len = some 2 }
get-put_example = get-put core (text "a") (text "12") 3 one_ns-IsValid (omega arith) put_is_ok

delete-DeleteOutcome_example :
    DeleteOutcome after_put core (text "a") (delete after_put (some core) (some (text "a")))
delete-DeleteOutcome_example = delete-DeleteOutcome core (text "a") after_put-IsValid

list-Listing_example :
    ((list after_put (some core) none (some five) ≡ none)
      × ((five ≡ 0) ⊎ (flag (ns_at after_put core) ≢ some true)))
    ⊎ ((n : Ns) × (ks : List Bytes) × (ns_at after_put core ≡ some n)
        × (n.enabled ≡ true)
        × (list after_put (some core) none (some five) ≡ some ks)
        × Listing n none (min five list_cap) ks)
list-Listing_example = list-Listing core none five after_put-IsValid

set_enabled-Switched_example :
    Switched after_put
      (text "electric")
      true
      (set_enabled after_put (some (text "electric")) true true)
set_enabled-Switched_example =
    set_enabled-Switched after_put (text "electric") true true after_put-IsValid

create_with_config-Created_example :
    Created (some small) (create_with_config (some small) (λ i. true))
create_with_config-Created_example = create_with_config-Created (some small)

run-create_with_config-IsValid_example : IsValid (
    run (create_with_config-Created (some small)).store (
      puts (some core) (some (text "a")) (some (text "12"))
      ∷ deletes (some core) none
      ∷ switches (some core) false true
      ∷ configures (some defaults) (λ i. true)
      ∷ []))
run-create_with_config-IsValid_example =
    run-create_with_config-IsValid (some small)
      (puts (some core) (some (text "a")) (some (text "12"))
        ∷ deletes (some core) none
        ∷ switches (some core) false true
        ∷ configures (some defaults) (λ i. true)
        ∷ [])
      (create_with_config-Created (some small)).made

abbrev created : Store
created = (create_with_config-Created (some small)).store

created_has :
    (name : Bytes) {on : Bool}
    → chosen initial name none ≡ some on
    → flag (ns_at created name) ≢ none
unfolding find_ns find_index
created_has name h gone =
    cc (sym ((create_with_config-Created (some small)).content.flags name) ∙ gone, h)

apply_config-Set_example :
    Set created (settings defaults) (apply_config created (some defaults) (λ i. true))
unfolding defaults chosen str_eq
apply_config-Set_example =
    apply_config-Set created defaults (λ i. true)
      (create_with_config-Created (some small)).content.valid
      (
        created_has (text "net.core") refl,
        (
          created_has (text "map.dynamic") refl,
          (
            created_has (text "net.pon") refl,
            (
              created_has (text "net.home") refl,
              (created_has (text "electric") refl, (created_has (text "inventory") refl, tt)),
            ),
          ),
        ),
      )
