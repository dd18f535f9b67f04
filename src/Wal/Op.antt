-- ===== src/Wal/Op.antt =====
-- The operation codes of wal/format.go, one byte each, and the names that wal/wal.go has for them.
use warpdb.Base.{ℕ, Bytes, codes, beq, if◌then◌else◌}

abbrev pub set : ℕ
set = 0x01

abbrev pub del : ℕ
del = 0x02

abbrev pub incr : ℕ
incr = 0x03

abbrev pub decr : ℕ
decr = 0x04

abbrev pub flush : ℕ
flush = 0x05

abbrev pub lpush : ℕ
lpush = 0x06

abbrev pub rpush : ℕ
rpush = 0x07

abbrev pub lpop : ℕ
lpop = 0x08

abbrev pub rpop : ℕ
rpop = 0x09

abbrev pub sadd : ℕ
sadd = 0x0A

abbrev pub srem : ℕ
srem = 0x0B

abbrev pub spop : ℕ
spop = 0x0C

abbrev pub hset : ℕ
hset = 0x0D

abbrev pub hdel : ℕ
hdel = 0x0E

-- opToCode
unfoldable pub op_to_code : Bytes → ℕ
op_to_code op =
    if beq op (codes "SET")
    then set
    else if beq op (codes "DEL")
    then del
    else if beq op (codes "INCR")
    then incr
    else if beq op (codes "DECR")
    then decr
    else if beq op (codes "FLUSHALL")
    then flush
    else if beq op (codes "LPUSH")
    then lpush
    else if beq op (codes "RPUSH")
    then rpush
    else if beq op (codes "LPOP")
    then lpop
    else if beq op (codes "RPOP")
    then rpop
    else if beq op (codes "SADD")
    then sadd
    else if beq op (codes "SREM")
    then srem
    else if beq op (codes "SPOP")
    then spop
    else if beq op (codes "HSET")
    then hset
    else if beq op (codes "HDEL")
    then hdel
    else set
