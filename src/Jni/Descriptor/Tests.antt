-- ===== src/Jni/Descriptor/Tests.antt =====
-- Runs of bridges/jni/descriptor.c and the witnesses of its theorems.
use vita_arc.Base.{◌+◌, ◌≡◌, true, some, none, [], ◌∷◌, ◌++◌, refl, arith}
use vita_arc.Base.Text.{codes}
use vita_arc.Jni.Descriptor.Defs.{
  parse_type, brackets, parse_after, simple_type, object_type, class_name, strchr, arguments,
  no_sig, return_type, sig_parse, type_parse,
}
use vita_arc.Jni.Descriptor.Print.{JavaType, primitive, class, IsJavaType}
use vita_arc.Jni.Descriptor.Signature.{void, print_method, sig_parse-print, arguments-fuel}

abbrev long_array : JavaType
long_array = record { dimensions = 1; element = primitive 74 }

abbrev string : JavaType
string = record { dimensions = 0; element = class (codes "java/lang/String") }

abbrev double : JavaType
double = record { dimensions = 0; element = primitive 68 }

long_array-IsJavaType : IsJavaType long_array
unfolding strchr
long_array-IsJavaType = (omega arith, (refl, omega arith))

string-IsJavaType : IsJavaType string
unfolding strchr
string-IsJavaType = ground arith

double-IsJavaType : IsJavaType double
unfolding strchr
double-IsJavaType = (omega arith, (refl, omega arith))

printed :
    print_method (long_array ∷ string ∷ double ∷ []) void
    ≡ codes "([JLjava/lang/String;D)V" ++ (0 ∷ [])
printed = refl

refused : sig_parse (some (codes "(V)V")) true ≡ none
unfolding sig_parse arguments return_type parse_type brackets parse_after simple_type object_type
    class_name strchr
refused = refl

type_of_field : type_parse (some (codes "[[Ljava/lang/String;")) true ≡ some 76
unfolding type_parse parse_type brackets parse_after simple_type object_type class_name strchr
type_of_field = refl

sig_parse-print_example :
    sig_parse (some (print_method (long_array ∷ string ∷ double ∷ []) void)) true
    ≡ some (record { args = 76 ∷ 76 ∷ 68 ∷ []; argc = 3; slots = 4; ret = 86 })
sig_parse-print_example =
    sig_parse-print (long_array ∷ string ∷ double ∷ []) void
      (long_array-IsJavaType, (string-IsJavaType, (double-IsJavaType, tt))) tt (omega arith)
      (omega arith)

arguments-fuel_example :
    arguments (256 + 9) (codes "I)V") no_sig ≡ arguments 256 (codes "I)V") no_sig
arguments-fuel_example = arguments-fuel 256 9 (codes "I)V") no_sig (omega arith) (omega arith)
