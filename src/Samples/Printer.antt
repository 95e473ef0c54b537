-- ===== src/Samples/Printer.antt =====
-- A printer of JSON.
use Prim.Native.String.{◌++◌ as append}
use model_lib.Prelude.{String, true, false}
use model_lib.Text.{decimal}
use model_lib.Json.{
  Json, null, flag, num, str, arr, obj, Items, nil, cons, Fields, end, field, Codec,
}

abbrev mutual
  print : Json → String
  print null = "null"
  print (flag true) = "true"
  print (flag false) = "false"
  print (num n) = decimal n
  print (str s) = append "\"" (append s "\"")
  print (arr xs) = append "[" (append (print_items xs) "]")
  print (obj fs) = append "{" (append (print_fields fs) "}")

  print_items : Items → String
  print_items nil = ""
  print_items (cons x xs) = append (print x) (append "," (print_items xs))

  print_fields : Fields → String
  print_fields end = ""
  print_fields (field k v rest) =
      append k (append ":" (append (print v) (append "," (print_fields rest))))

abbrev pub codec : Codec
codec = record {
  canonical_json = print;
  ascii_json = print;
  sha256_hex = λ s. s;
  repr = print;
  upper = λ s. s;
  lower = λ s. s;
}
