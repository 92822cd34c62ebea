-- ===== src/LogStream/Tests.antt =====
-- muduo/base/LogStream.cpp: the theorems at concrete numbers.
use learn_muduo.Prelude.{◌≡◌, ◌++◌, codes, arith, decimal}
use learn_muduo.LogStream.{LogStream, negsuc, sign, convert, insert, integer}
use learn_muduo.LogStream.Convert.{convert-decimal}
use learn_muduo.LogStream.Bounds.{Adds, shown, insert-Adds}

abbrev greeting : LogStream
greeting = record { text = codes "value " }

convert-decimal_example : convert (negsuc 41) ≡ sign (negsuc 41) ++ decimal 42
convert-decimal_example = convert-decimal (negsuc 41)

insert-Adds_example :
    Adds (shown (integer (negsuc 41))) greeting (insert greeting (integer (negsuc 41)))
insert-Adds_example = insert-Adds greeting (integer (negsuc 41)) (omega arith) (omega arith)
