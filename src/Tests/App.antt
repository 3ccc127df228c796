-- ===== src/Tests/App.antt =====
-- A store with one update that is not ordered yet, reads of two keys, and a view change.
use skyros.Protocol.App.{
  add_to_durability_log_in_order, clear_durability_log, is_durable, App, app_upcall, app_upcall_at,
  make_durable, key_of, first_codes, found_or,
}
use skyros.Protocol.App.Settled.{fresh, update, Undisturbed, app_upcall-settled, answer_of, settled}
use skyros.Protocol.App.Orders.{IsNew}
use skyros.Protocol.App.Lost.{IsOther, app_upcall-lost}
use skyros.Protocol.Log.{Request}
use skyros.Base.Text.{codes, Text, ◌=text◌}
use skyros.Base.{◌≡◌, refl, ◌⊎◌, inl, true, false, none, some, [], ◌∷◌}

abbrev write : Request
write = record { op = codes "uk1xxxxxxxxxxxxxxxxxxxxxxv"; clientid = 7; clientreqid = 1 }

abbrev write_key : Text
write_key = codes "k1xxxxxxxxxxxxxxxxxxxxxx"

abbrev read_request : Request
read_request = record { op = codes "rk2"; clientid = 8; clientreqid = 1 }

abbrev empty : App
empty = record {
  kv_store = λ key. none;
  last_update_to_key = λ key. none;
  durability_log = [];
  dur_log_index = 0;
}

IsNew-write : IsNew (7, 1) empty
unfolding is_durable
IsNew-write = record { not_durable = refl; not_indexed = λ key. inl refl }

write_key_read : key_of write.op ≡ some write_key
unfolding key_of first_codes
write_key_read = refl

abbrev one_update : App
one_update = make_durable write write_key empty

written : app_upcall write empty ≡ some (answer_of false (codes "durable-ack"), one_update)
unfolding app_upcall app_upcall_at key_of first_codes
written = refl

Undisturbed-one_update : Undisturbed one_update
Undisturbed-one_update =
    update write write_key (fresh empty refl (λ key. refl)) write_key_read refl IsNew-write written

read_key_read : key_of read_request.op ≡ some (codes "k2")
unfolding key_of first_codes
read_key_read = refl

app_upcall-settled_example :
    (app_upcall read_request one_update ≡ some (answer_of true (codes "ordernowread!"), one_update))
    ⊎ (app_upcall read_request one_update
        ≡ some (
          answer_of false (
              found_or
                (codes "NOTFOUND")
                (settled one_update.durability_log one_update.kv_store (codes "k2"))),
          one_update,
        ))
app_upcall-settled_example =
    app_upcall-settled read_request (codes "k2") Undisturbed-one_update read_key_read refl

abbrev other_write : Request
other_write = record { op = codes "uk2"; clientid = 9; clientreqid = 1 }

other_write-IsOther : IsOther write_key (7, 1) other_write
unfolding key_of first_codes ◌=text◌
other_write-IsOther = record {
  own_key = codes "k2";
  has_key = refl;
  other_key = refl;
  other_id = refl;
}

abbrev read_back : Request
read_back = record { op = codes "rk1xxxxxxxxxxxxxxxxxxxxxx"; clientid = 7; clientreqid = 2 }

read_back_key : key_of read_back.op ≡ some write_key
unfolding key_of first_codes
read_back_key = refl

app_upcall-lost_example :
    (a2 : App) × (add_to_durability_log_in_order
        (other_write ∷ [])
        (clear_durability_log one_update)
      ≡ some a2)
    × (app_upcall read_back a2 ≡ none)
app_upcall-lost_example =
    app_upcall-lost empty write read_back other_write [] write_key write_key_read refl refl written
      (other_write-IsOther, tt) read_back_key refl
